-- ===== src/Domain/Continuation/Laws.antt =====
-- Which continuation decisions there are, and that a stored one is read back as it was.
use agent_inbox_question.Base.{String, Time, none, some, ◌≡◌, ◌≢◌, ok, arith, eq_iff, Option}
use agent_inbox_question.Domain.Status.{ContinuationKind}
use agent_inbox_question.Domain.Continuation.{ContinuationDecision, parse_continuation}

-- The three shapes of a decision, as the constructors build them.
pub data IsWellFormed (d : ContinuationDecision) : Type 0 where
  idle : d.kind ≡ ContinuationKind.none → d.eligible_at ≡ none → d.reason ≡ "" → IsWellFormed d
  waiting :
      (at : Time)
      → d.kind ≡ ContinuationKind.scheduled
      → d.eligible_at ≡ some at
      → d.reason ≡ ""
      → IsWellFormed d
  given_up :
      (at : Time)
      → d.kind ≡ ContinuationKind.stopped
      → d.eligible_at ≡ some at
      → d.reason ≢ ""
      → IsWellFormed d

parse_parts :
    (kind : ContinuationKind) (at : Option Time) (reason : String) {d : ContinuationDecision}
    → parse_continuation kind at reason ≡ ok d
    → (d.kind ≡ kind) × (d.eligible_at ≡ at) × (d.reason ≡ reason)
unfolding parse_continuation
parse_parts kind at reason h = ground (arith, eq_iff reason "")

parse-IsWellFormed :
    (kind : ContinuationKind) (at : Option Time) (reason : String) {d : ContinuationDecision}
    → parse_continuation kind at reason ≡ ok d
    → IsWellFormed d
unfolding parse_continuation
parse-IsWellFormed ContinuationKind.none at reason h =
    idle (ground arith) (ground arith) (ground arith)
parse-IsWellFormed ContinuationKind.scheduled none reason h = cc
parse-IsWellFormed ContinuationKind.scheduled (some at) reason h =
    waiting at (ground arith) (ground arith) (ground arith)
parse-IsWellFormed ContinuationKind.stopped none reason h = cc
parse-IsWellFormed ContinuationKind.stopped (some at) reason h =
    given_up at (ground arith) (ground arith) (ground (arith, eq_iff reason ""))
parse-IsWellFormed (ContinuationKind.other s) at reason h = cc

-- A decision that is parsed from a kind, an instant and a reason is well formed and has all three.
pub parse_sound :
    (kind : ContinuationKind) (at : Option Time) (reason : String) {d : ContinuationDecision}
    → parse_continuation kind at reason ≡ ok d
    → IsWellFormed d × (d.kind ≡ kind) × (d.eligible_at ≡ at) × (d.reason ≡ reason)
parse_sound kind at reason h =
    let (k, a, r) = parse_parts kind at reason h in (parse-IsWellFormed kind at reason h, k, a, r)

-- Each well-formed decision is parsed from its own kind, instant and reason.
pub parse_complete :
    (d : ContinuationDecision)
    → IsWellFormed d
    → parse_continuation d.kind d.eligible_at d.reason ≡ ok d
unfolding parse_continuation
parse_complete d (idle k a r) = ground (arith, eq_iff d.reason "")
parse_complete d (waiting at k a r) = ground (arith, eq_iff d.reason "")
parse_complete d (given_up at k a r) = ground (arith, eq_iff d.reason "")
