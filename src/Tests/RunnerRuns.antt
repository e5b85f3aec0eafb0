-- ===== src/Tests/RunnerRuns.antt =====
-- Terminal writes and resumes of small sessions.
use agent_inbox_question.Base.{
  ◌+◌, ◌≡◌, refl, ◌↔◌, true, false, some, ok, pos, ltb, arith, [], ◌∷◌, is_positive,
}
use agent_inbox_question.Domain.Status.{
  TaskStatus, ExitReason, AttemptOutcome, ProviderWindowOrigin, ContinuationKind,
}
use agent_inbox_question.Domain.Continuation.{scheduled_continuation, auto_retry_no_progress_reason}
use agent_inbox_question.Domain.Completion.{decide_attempt_completion}
use agent_inbox_question.Agent.Plan.{new_step}
use agent_inbox_question.Agent.Session.{
  SessionState, AttemptCheckpoint, HaltReason, begin_attempt, bind_attempt,
}
use agent_inbox_question.Agent.Run.Results.{IsSound}
use agent_inbox_question.Store.Candidate.{ResumeCandidate}
use agent_inbox_question.Runner.Terminalize.{AttemptTerminalization, terminalize_checkpoint}
use agent_inbox_question.Runner.Terminalize.Laws.{terminalize_eligibility, terminalize_stopped_iff}
use agent_inbox_question.Runner.Resume.{ResumeRequest, ResumeKind, check_candidate, open_window}
use agent_inbox_question.Runner.Resume.Laws.{open_window-IsSound}

abbrev pub halted : SessionState
halted = record {
  id = "s";
  task_title = "t";
  task_desc = "";
  feedback = [];
  steps = new_step "analyze" 200 ∷ [];
  budget_model_version = 3;
  configured_token_budget = 100;
  attempt_token_allowance = 100;
  attempt_window_origin = ProviderWindowOrigin.fresh;
  tokens_remaining = 100;
  tokens_used = 0;
  next_step = 0;
  completed = false;
  errored_at = 0;
  error_message = "";
  budget_halted = true;
  legacy_token_budget = 0;
  attempt_run_id = 1;
  attempt_owner_token = "a";
  attempt_start_step = 0;
  attempt_halt_reason = HaltReason.token_exhausted;
  attempt_halted_at = some 100;
}

abbrev halted_checkpoint : AttemptCheckpoint
halted_checkpoint = record {
  run_id = 1;
  owner_token = "a";
  start_step = 0;
  completed_steps = 0;
  tokens_used = 0;
  tokens_remaining = 100;
  window_origin = ProviderWindowOrigin.fresh;
  halted_at = some 100;
  halt_reason = HaltReason.token_exhausted;
  error = "";
  output = "";
}

abbrev stopped : AttemptTerminalization
stopped = record {
  completion = record {
    outcome = AttemptOutcome.token_exhausted;
    continuation = record {
      kind = ContinuationKind.stopped;
      eligible_at = some 130;
      reason = auto_retry_no_progress_reason;
    };
  };
  error_text = "";
  comment_author = "";
  comment_body = "";
}

-- Recovered long after the halt, the attempt is eligible 30 after the halt.
terminalizes : terminalize_checkpoint halted halted_checkpoint 0 5000 (pos 30) "" ≡ ok stopped
unfolding terminalize_checkpoint decide_attempt_completion
terminalizes = refl

terminalize_eligibility_example : stopped.completion.continuation.eligible_at ≡ some (100 + 30)
terminalize_eligibility_example =
    terminalize_eligibility halted halted_checkpoint 0 5000 (pos 30) "" terminalizes 100 30 refl
      refl refl (omega arith)

terminalize_stopped_iff_example :
    (stopped.completion.continuation.kind ≡ ContinuationKind.stopped) ↔ (
      (halted_checkpoint.halt_reason ≡ HaltReason.token_exhausted)
      × (is_positive (pos 30) ≡ true)
      × (ltb 0 halted_checkpoint.completed_steps ≡ false)
      × (halted_checkpoint.window_origin ≡ ProviderWindowOrigin.fresh))
terminalize_stopped_iff_example =
    terminalize_stopped_iff halted halted_checkpoint 0 5000 (pos 30) "" terminalizes

abbrev candidate : ResumeCandidate
candidate = record {
  task_status = TaskStatus.failed;
  run_id = 4;
  session_id = "s";
  exit_reason = ExitReason.token_budget_exhausted;
  continuation = scheduled_continuation 130;
  session_checkpoint = "{}";
}

abbrev request : ResumeRequest
request = record { task_id = 2; expected_run_id = 4; kind = ResumeKind.scheduled_exhaustion_resume }

passes : check_candidate request candidate 130 ≡ ok tt
unfolding check_candidate
passes = refl

abbrev reopened : SessionState
reopened = record halted { budget_halted = false }

opens : open_window ExitReason.token_budget_exhausted halted ≡ ok reopened
unfolding open_window begin_attempt
opens = refl

open_window-IsSound_example :
    IsSound (bind_attempt 5 "b" reopened)
    × (reopened.tokens_used ≡ 0)
    × (reopened.tokens_remaining ≡ 100)
    × (reopened.attempt_window_origin ≡ ProviderWindowOrigin.fresh)
    × (reopened.next_step ≡ 0)
open_window-IsSound_example =
    open_window-IsSound ExitReason.token_budget_exhausted halted 5 "b" (omega arith) opens
