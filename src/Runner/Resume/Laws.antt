-- ===== src/Runner/Resume/Laws.antt =====
-- When a resume goes ahead, and the window that it opens.
use agent_inbox_question.Base.{length, ℕ, ◌≤◌, String, Time, ◌≡◌, ◌≢◌, false, some, ok, arith}
use agent_inbox_question.Domain.Status.{
  TaskStatus, ExitReason, ContinuationKind, ProviderWindowOrigin,
}
use agent_inbox_question.Agent.Session.{SessionState, begin_attempt, continue_attempt, bind_attempt}
use agent_inbox_question.Agent.Run.Results.{IsSound}
use agent_inbox_question.Store.Candidate.{ResumeCandidate}
use agent_inbox_question.Runner.Resume.{
  ResumeRequest, is_manual, expected_exit, check_candidate, open_window,
}

-- When the checks pass for a candidate with an eligibility time, its task is failed, it has a
-- terminal run, and that time is not in the future.
pub check_candidate_sound :
    (request : ResumeRequest) (candidate : ResumeCandidate) (now at : Time)
    → candidate.continuation.eligible_at ≡ some at
    → check_candidate request candidate now ≡ ok tt
    → (candidate.task_status ≡ TaskStatus.failed) × (candidate.run_id ≢ 0) × (at ≤ now)
unfolding check_candidate
check_candidate_sound request candidate now at e h = ground arith

-- When the checks pass for a request that is not manual, the candidate has the run that was
-- selected, the exit reason of the request's kind, and a scheduled continuation.
pub check_candidate_selection :
    (request : ResumeRequest) (candidate : ResumeCandidate) (now : Time)
    → is_manual request.kind ≡ false
    → check_candidate request candidate now ≡ ok tt
    → (candidate.run_id ≡ request.expected_run_id)
      × (candidate.exit_reason ≡ expected_exit request.kind)
      × (candidate.continuation.kind ≡ ContinuationKind.scheduled)
unfolding check_candidate
check_candidate_selection request candidate now m h = ground arith

-- The tokens of the window that a run's exit reason opens.
abbrev pub window_of : ExitReason → SessionState → ℕ
window_of ExitReason.interrupted s = s.tokens_remaining
window_of _ s = s.configured_token_budget

-- Whether that window is a new one.
abbrev pub origin_of : ExitReason → ProviderWindowOrigin
origin_of ExitReason.interrupted = ProviderWindowOrigin.continued
origin_of _ = ProviderWindowOrigin.fresh

-- When a window is opened for a session within its plan, the attempt bound to it has a sound account
-- with no token used, the tokens and the origin that the exit reason gives, and the same next step.
pub open_window-IsSound :
    (reason : ExitReason) (s : SessionState) {s' : SessionState} (id : ℕ) (owner : String)
    → s.next_step ≤ length s.steps
    → open_window reason s ≡ ok s'
    → IsSound (bind_attempt id owner s')
      × (s'.tokens_used ≡ 0)
      × (s'.tokens_remaining ≡ window_of reason s)
      × (s'.attempt_window_origin ≡ origin_of reason)
      × (s'.next_step ≡ s.next_step)
unfolding open_window begin_attempt continue_attempt bind_attempt
open_window-IsSound reason s id owner b h = (
  record { in_plan = ground arith; begun = ground arith; balanced = ground arith },
  ground arith,
  ground arith,
  ground arith,
  ground arith,
)
