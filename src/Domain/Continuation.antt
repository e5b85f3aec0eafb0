-- ===== src/Domain/Continuation.antt =====
-- internal/domain/types.go: ContinuationDecision, with its constructors and ParseContinuation.
pub mod Laws
use agent_inbox_question.Base.{
  String, Time, Option, none, some, ◌||◌, not, str_eq, is_some, if◌then◌else◌, ok, err,
}
use agent_inbox_question.Domain.Status.{ContinuationKind}
use agent_inbox_question.Domain.Errors.{Error, Fallible}

pub record ContinuationDecision : Type 0 where
  pub kind : ContinuationKind
  pub eligible_at : Option Time
  pub reason : String

abbrev pub auto_retry_no_progress_reason : String
auto_retry_no_progress_reason =
    "auto-retry stopped: next step requires more than the configured window"

abbrev pub no_continuation : ContinuationDecision
no_continuation = record { kind = ContinuationKind.none; eligible_at = none; reason = "" }

-- An instant has one representation here, so `UTC()` changes nothing.
abbrev pub scheduled_continuation : Time → ContinuationDecision
scheduled_continuation at = record {
  kind = ContinuationKind.scheduled;
  eligible_at = some at;
  reason = "";
}

unfoldable pub stopped_continuation : Time → String → Fallible ContinuationDecision
stopped_continuation at reason =
    if str_eq reason ""
    then err (Error.failure "stopped continuation requires a reason")
    else ok (record { kind = ContinuationKind.stopped; eligible_at = some at; reason = reason })

parse_scheduled : Option Time → String → Fallible ContinuationDecision
parse_scheduled none reason = err (Error.failure "scheduled continuation requires only eligibility")
parse_scheduled (some at) reason =
    if not (str_eq reason "")
    then err (Error.failure "scheduled continuation requires only eligibility")
    else ok (scheduled_continuation at)

parse_stopped : Option Time → String → Fallible ContinuationDecision
unfolding stopped_continuation
parse_stopped none reason =
    err (Error.failure "stopped continuation requires provider reset eligibility")
parse_stopped (some at) reason = stopped_continuation at reason

unfoldable pub parse_continuation :
    ContinuationKind → Option Time → String → Fallible ContinuationDecision
unfolding parse_scheduled parse_stopped
parse_continuation ContinuationKind.none at reason =
    if is_some at || not (str_eq reason "")
    then err (Error.failure "empty continuation has scheduling data")
    else ok no_continuation
parse_continuation ContinuationKind.scheduled at reason = parse_scheduled at reason
parse_continuation ContinuationKind.stopped at reason = parse_stopped at reason
parse_continuation (ContinuationKind.other kind) at reason =
    err (Error.failure "unknown continuation state")
