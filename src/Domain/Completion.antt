-- ===== src/Domain/Completion.antt =====
-- internal/domain/types.go: AttemptCompletion, DecideAttemptCompletion and TerminalState.
pub mod Laws
use agent_inbox_question.Base.{
  Time, Duration, is_positive, add_time, Bool, true, false, ◌||◌, not, if◌then◌else◌, ok, err,
  ◌>>=◌, ◌>>◌, guard,
}
use agent_inbox_question.Domain.Status.{
  TaskStatus, RunStatus, ExitReason, AttemptOutcome, ProviderWindowOrigin, ContinuationKind,
  is_no_continuation, is_scheduled, is_stopped,
}
use agent_inbox_question.Domain.Errors.{Error, Fallible}
use agent_inbox_question.Domain.Continuation.{
  ContinuationDecision, no_continuation, scheduled_continuation, stopped_continuation,
  auto_retry_no_progress_reason,
}

pub record TerminalAttemptState : Type 0 where
  pub run_status : RunStatus
  pub exit_reason : ExitReason
  pub task_status : TaskStatus

unfoldable pub terminal_state : AttemptOutcome → Fallible TerminalAttemptState
terminal_state AttemptOutcome.completed = ok (record {
  run_status = RunStatus.succeeded;
  exit_reason = ExitReason.completed;
  task_status = TaskStatus.done;
})
terminal_state AttemptOutcome.agent_error = ok (record {
  run_status = RunStatus.errored;
  exit_reason = ExitReason.agent_error;
  task_status = TaskStatus.failed;
})
terminal_state AttemptOutcome.token_exhausted = ok (record {
  run_status = RunStatus.token_exhausted;
  exit_reason = ExitReason.token_budget_exhausted;
  task_status = TaskStatus.failed;
})
terminal_state AttemptOutcome.interrupted = ok (record {
  run_status = RunStatus.interrupted;
  exit_reason = ExitReason.interrupted;
  task_status = TaskStatus.failed;
})
terminal_state (AttemptOutcome.other o) = err (Error.failure "unknown attempt outcome")

pub record AttemptCompletion : Type 0 where
  pub outcome : AttemptOutcome
  pub continuation : ContinuationDecision

-- The `switch` that sets `valid`.
abbrev pub completion_valid : AttemptOutcome → ContinuationKind → Bool
completion_valid AttemptOutcome.completed kind = is_no_continuation kind
completion_valid AttemptOutcome.agent_error kind = is_no_continuation kind
completion_valid AttemptOutcome.token_exhausted kind =
    is_no_continuation kind || (is_scheduled kind || is_stopped kind)
completion_valid AttemptOutcome.interrupted kind = is_scheduled kind
completion_valid (AttemptOutcome.other o) kind = false

unfoldable pub new_attempt_completion :
    AttemptOutcome → ContinuationDecision → Fallible AttemptCompletion
unfolding terminal_state
new_attempt_completion outcome continuation = do
  terminal_state outcome
  guard (completion_valid outcome continuation.kind)
      (Error.failure "attempt outcome cannot use continuation")
  ok (record { outcome = outcome; continuation = continuation })

pub record AttemptCompletionInput : Type 0 where
  pub outcome : AttemptOutcome
  pub finished_at : Time
  pub reset_interval : Duration
  pub progressed : Bool
  pub window_origin : ProviderWindowOrigin

abbrev pub is_fresh : ProviderWindowOrigin → Bool
is_fresh ProviderWindowOrigin.fresh = true
is_fresh _ = false

abbrev pub known_origin : ProviderWindowOrigin → Bool
known_origin (ProviderWindowOrigin.other _) = false
known_origin _ = true

-- The branch for `AttemptTokenExhausted`.
decide_exhausted : AttemptCompletionInput → Fallible ContinuationDecision
unfolding stopped_continuation
decide_exhausted input =
    let reset_at = add_time input.finished_at input.reset_interval in
    if is_positive input.reset_interval
    then (if input.progressed || not (is_fresh input.window_origin)
        then ok (scheduled_continuation reset_at)
        else stopped_continuation reset_at auto_retry_no_progress_reason)
    else ok no_continuation

-- The `switch` on the outcome.
decide_continuation : AttemptOutcome → AttemptCompletionInput → Fallible ContinuationDecision
unfolding decide_exhausted
decide_continuation AttemptOutcome.token_exhausted input = decide_exhausted input
decide_continuation AttemptOutcome.interrupted input = ok (scheduled_continuation input.finished_at)
decide_continuation AttemptOutcome.completed input = ok no_continuation
decide_continuation AttemptOutcome.agent_error input = ok no_continuation
decide_continuation (AttemptOutcome.other o) input = err (Error.failure "unknown attempt outcome")

unfoldable pub decide_attempt_completion : AttemptCompletionInput → Fallible AttemptCompletion
unfolding decide_continuation new_attempt_completion
decide_attempt_completion input = do
  guard (known_origin input.window_origin) (Error.failure "unknown provider window origin")
  decision ← decide_continuation input.outcome input
  new_attempt_completion input.outcome decision
