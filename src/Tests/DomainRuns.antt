-- ===== src/Tests/DomainRuns.antt =====
-- Decisions about finished attempts, and stored decisions.
use agent_inbox_question.Base.{◌≡◌, refl, false, some, ok, pos}
use agent_inbox_question.Domain.Status.{AttemptOutcome, ProviderWindowOrigin, ContinuationKind}
use agent_inbox_question.Domain.Continuation.{
  scheduled_continuation, parse_continuation, auto_retry_no_progress_reason,
}
use agent_inbox_question.Domain.Continuation.Laws.{waiting, parse_complete}
use agent_inbox_question.Domain.Completion.{AttemptCompletion, AttemptCompletionInput}

-- A fresh window that did no step.
abbrev oversized : AttemptCompletionInput
oversized = record {
  outcome = AttemptOutcome.token_exhausted;
  finished_at = 100;
  reset_interval = pos 30;
  progressed = false;
  window_origin = ProviderWindowOrigin.fresh;
}

abbrev stopped : AttemptCompletion
stopped = record {
  outcome = AttemptOutcome.token_exhausted;
  continuation = record {
    kind = ContinuationKind.stopped;
    eligible_at = some 130;
    reason = auto_retry_no_progress_reason;
  };
}

reads :
    parse_continuation ContinuationKind.scheduled (some 130) "" ≡ ok (scheduled_continuation 130)
unfolding parse_continuation
reads = refl

parse_complete_example :
    parse_continuation ContinuationKind.scheduled (some 130) "" ≡ ok (scheduled_continuation 130)
parse_complete_example = parse_complete (scheduled_continuation 130) (waiting 130 refl refl refl)
