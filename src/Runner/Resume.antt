-- ===== src/Runner/Resume.antt =====
-- internal/runner/runner.go: resume up to the start of its attempt, and startAttempt.
pub mod Laws
use agent_inbox_question.Base.{
  ℕ, String, Time, Duration, pos, is_positive, Bool, true, false, ◌||◌, not, Option, none, some,
  ltb, ◌==◌, if◌then◌else◌, ok, err, ◌>>=◌, ◌>>◌, guard,
}
use agent_inbox_question.Domain.Status.{
  TaskStatus, ExitReason, ProviderWindowOrigin, same_task_status, same_exit_reason, is_scheduled,
}
use agent_inbox_question.Domain.Errors.{Error, Fallible}
use agent_inbox_question.Agent.Session.{SessionState, Json, begin_attempt, continue_attempt}
use agent_inbox_question.Store.Database.{Run, Db, Handle, SqlDates, Faults}
use agent_inbox_question.Store.Start.{
  StartAttemptParams, start_owned_attempt, start_automatic_attempt, start_interrupted_attempt,
}
use agent_inbox_question.Store.Candidate.{ResumeCandidate}
use agent_inbox_question.Runner.Recover.{restore_attempt_session}

pub data ResumeKind : Type 0 where
  manual_resume scheduled_exhaustion_resume interrupted_recovery_resume : ResumeKind

pub record ResumeRequest : Type 0 where
  pub task_id : ℕ
  pub expected_run_id : ℕ
  pub kind : ResumeKind

abbrev pub is_manual : ResumeKind → Bool
is_manual ResumeKind.manual_resume = true
is_manual _ = false

abbrev pub expected_exit : ResumeKind → ExitReason
expected_exit ResumeKind.interrupted_recovery_resume = ExitReason.interrupted
expected_exit _ = ExitReason.token_budget_exhausted

abbrev pub selection_changed : ResumeRequest → ResumeCandidate → Bool
selection_changed request candidate =
    not (candidate.run_id == request.expected_run_id)
    || not (same_exit_reason candidate.exit_reason (expected_exit request.kind))
    || not (is_scheduled candidate.continuation.kind)

-- `nextEligibleAt != nil && now.Before(*nextEligibleAt)`.
abbrev pub too_early : Time → Option Time → Bool
too_early now none = false
too_early now (some next) = ltb now next

abbrev pub failed_conflict : ResumeRequest → ResumeCandidate → Error
failed_conflict request candidate = Error.task_status_conflict (record {
  task_id = request.task_id;
  expected = TaskStatus.failed;
  observed = candidate.task_status;
  expected_run_id = 0;
  observed_run_id = 0;
})

-- The checks in front of the session.
unfoldable pub check_candidate : ResumeRequest → ResumeCandidate → Time → Fallible (Unit {0})
check_candidate request candidate now = do
  guard (same_task_status candidate.task_status TaskStatus.failed)
      (failed_conflict request candidate)
  guard (not (candidate.run_id == 0)) (Error.failure "task has no terminal run to resume")
  guard (is_manual request.kind || not (selection_changed request candidate)) Error.conflict
  guard (is_manual request.kind || not (too_early now candidate.continuation.eligible_at))
      Error.conflict
  guard (not (too_early now candidate.continuation.eligible_at))
      (Error.failure "task cannot be resumed until its eligibility")

-- The window of the new attempt: a fresh one, or what remains of the interrupted one.
unfoldable pub open_window : ExitReason → SessionState → Fallible SessionState
open_window ExitReason.agent_error s =
    begin_attempt (pos s.configured_token_budget) ProviderWindowOrigin.fresh s
open_window ExitReason.token_budget_exhausted s =
    begin_attempt (pos s.configured_token_budget) ProviderWindowOrigin.fresh s
open_window ExitReason.interrupted s = ok (continue_attempt s)
open_window _ s = err (Error.failure "task cannot resume run with its exit reason")

unfoldable pub prepare_resume :
    Json
    → (String → Fallible SessionState)
    → ResumeRequest
    → ResumeCandidate
    → Time
    → Fallible SessionState
unfolding check_candidate open_window restore_attempt_session
prepare_resume json load request candidate now = do
  check_candidate request candidate now
  s ← restore_attempt_session json load candidate.session_id candidate.session_checkpoint
  open_window candidate.exit_reason s

-- attemptExpectation.
pub record AttemptExpectation : Type 0 where
  pub task_id : ℕ
  pub status : TaskStatus
  pub previous_run_id : ℕ
  pub claim : ResumeKind

abbrev pub default_lease_duration : Duration
default_lease_duration = pos 3_000_000_000

abbrev pub lease_or_default : Duration → Duration
lease_or_default d = if is_positive d then d else default_lease_duration

abbrev pub start_params : AttemptExpectation → SessionState → Duration → Time → StartAttemptParams
start_params expected s lease clock = record {
  task_id = expected.task_id;
  expected_status = expected.status;
  expected_run_id = expected.previous_run_id;
  session_id = s.id;
  token_budget = s.attempt_token_allowance;
  start_step = s.next_step;
  started_at = clock;
  lease_duration = lease_or_default lease;
}

unfoldable pub start_claim :
    ResumeKind
    → SqlDates
    → Faults
    → Time
    → Option String
    → StartAttemptParams
    → Db
    → Handle × Fallible Run
start_claim ResumeKind.scheduled_exhaustion_resume = start_automatic_attempt
start_claim ResumeKind.interrupted_recovery_resume = start_interrupted_attempt
start_claim ResumeKind.manual_resume = start_owned_attempt

unfoldable pub start_attempt :
    SqlDates
    → Faults
    → Time
    → Option String
    → Duration
    → SessionState
    → AttemptExpectation
    → Db
    → Handle × Fallible Run
unfolding start_claim
start_attempt dates fails clock token lease s expected =
    start_claim expected.claim dates fails clock token (start_params expected s lease clock)
