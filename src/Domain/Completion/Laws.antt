-- ===== src/Domain/Completion/Laws.antt =====
-- The continuation policy of a finished attempt.
use agent_inbox_question.Base.{
  ◌||◌, not, is_ok, is_ok-eq, eq_iff, Bool-cases, inl, inr, ◌≡◌, true, false, ok, is_positive,
  add_time, arith, ◌↔◌,
}
use agent_inbox_question.Domain.Status.{AttemptOutcome, ProviderWindowOrigin, ContinuationKind}
use agent_inbox_question.Domain.Continuation.{ContinuationDecision, auto_retry_no_progress_reason}
use agent_inbox_question.Domain.Completion.{
  TerminalAttemptState, terminal_state, AttemptCompletion, AttemptCompletionInput, known_origin,
  completion_valid, decide_attempt_completion, decide_continuation, is_fresh,
}
use agent_inbox_question.Domain.Continuation.Laws.{IsWellFormed, idle, waiting, given_up}

-- what is known of a completion that was accepted
pub decide-Valid :
    (input : AttemptCompletionInput) {c : AttemptCompletion}
    → decide_attempt_completion input ≡ ok c
    → (c.outcome ≡ input.outcome) × (completion_valid c.outcome c.continuation.kind ≡ true)
unfolding decide_attempt_completion
decide-Valid input h = ground arith

-- An accepted completion stops the retries exactly when the window's tokens ran out under a positive
-- reset interval, no step was done, and the window had been a fresh one.
pub decide_stopped_iff :
    (input : AttemptCompletionInput) (c : AttemptCompletion)
    → decide_attempt_completion input ≡ ok c
    → (c.continuation.kind ≡ ContinuationKind.stopped) ↔ (
        (input.outcome ≡ AttemptOutcome.token_exhausted)
        × (is_positive input.reset_interval ≡ true)
        × (input.progressed ≡ false)
        × (input.window_origin ≡ ProviderWindowOrigin.fresh))
unfolding decide_attempt_completion
decide_stopped_iff input c h = (λ k. ground arith, λ k. ground arith)

decide-is_ok :
    (input : AttemptCompletionInput)
    → known_origin input.window_origin ≡ true
    → (st : TerminalAttemptState) → terminal_state input.outcome ≡ ok st
    → is_ok (decide_attempt_completion input) ≡ true
unfolding decide_attempt_completion
decide-is_ok input o st h = ground arith

-- An input whose window origin is known and whose outcome has a terminal state has a completion.
pub decide_total :
    (input : AttemptCompletionInput)
    → known_origin input.window_origin ≡ true
    → (st : TerminalAttemptState) → terminal_state input.outcome ≡ ok st
    → (c : AttemptCompletion) × (decide_attempt_completion input ≡ ok c)
decide_total input o st h = is_ok-eq _ (decide-is_ok input o st h)

decision-IsWellFormed :
    (o : AttemptOutcome) (input : AttemptCompletionInput) {d : ContinuationDecision}
    → decide_continuation o input ≡ ok d
    → IsWellFormed d
unfolding decide_continuation
decision-IsWellFormed AttemptOutcome.completed input h =
    idle (ground arith) (ground arith) (ground arith)
decision-IsWellFormed AttemptOutcome.agent_error input h =
    idle (ground arith) (ground arith) (ground arith)
decision-IsWellFormed AttemptOutcome.interrupted input h =
    waiting input.finished_at (ground arith) (ground arith) (ground arith)
decision-IsWellFormed (AttemptOutcome.other o) input h = cc
decision-IsWellFormed AttemptOutcome.token_exhausted input h =
    elim (Bool-cases (is_positive input.reset_interval)) [
      | inr e ↦ idle (ground arith) (ground arith) (ground arith)
      | inl p ↦ elim (Bool-cases (input.progressed || not (is_fresh input.window_origin))) [
        | inl e ↦
            waiting (add_time input.finished_at input.reset_interval) (ground arith) (ground arith)
              (ground arith)
        | inr e ↦
            given_up (add_time input.finished_at input.reset_interval) (ground arith) (ground arith)
              (ground (arith, eq_iff auto_retry_no_progress_reason ""))
      ]
    ]

decide_decision :
    (input : AttemptCompletionInput) (c : AttemptCompletion)
    → decide_attempt_completion input ≡ ok c
    → decide_continuation input.outcome input ≡ ok c.continuation
unfolding decide_attempt_completion
decide_decision input c h = ground arith

-- The continuation of an accepted completion is well formed.
pub decide-IsWellFormed :
    (input : AttemptCompletionInput) {c : AttemptCompletion}
    → decide_attempt_completion input ≡ ok c
    → IsWellFormed c.continuation
decide-IsWellFormed input {c} h =
    decision-IsWellFormed input.outcome input (decide_decision input c h)
