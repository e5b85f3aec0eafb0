-- ===== src/Runner/Terminalize/Laws.antt =====
-- How an attempt that halted is recorded.
use agent_inbox_question.Base.{
  ℕ, ◌+◌, ◌<◌, String, Time, Duration, pos, ◌≡◌, true, false, some, ok, ltb, arith, is_positive,
  ◌↔◌,
}
use agent_inbox_question.Domain.Status.{AttemptOutcome, ContinuationKind, ProviderWindowOrigin}
use agent_inbox_question.Domain.Completion.{decide_attempt_completion}
use agent_inbox_question.Agent.Session.{SessionState, AttemptCheckpoint, HaltReason}
use agent_inbox_question.Runner.Terminalize.{AttemptTerminalization, terminalize_checkpoint}

-- The outcome that a halt reason is recorded as.
abbrev pub outcome_of : HaltReason → AttemptOutcome
outcome_of HaltReason.completed = AttemptOutcome.completed
outcome_of HaltReason.agent_error = AttemptOutcome.agent_error
outcome_of HaltReason.token_exhausted = AttemptOutcome.token_exhausted
outcome_of (HaltReason.other r) = AttemptOutcome.other r
outcome_of _ = AttemptOutcome.interrupted

module _ (s : SessionState) (c : AttemptCheckpoint) (start_step : ℕ) (finished_at : Time)
    (reset : Duration) (text : String) {t : AttemptTerminalization}
    (done : terminalize_checkpoint s c start_step finished_at reset text ≡ ok t) where
  -- A checkpoint that is terminalized is completed with the outcome of its halt reason, an unnamed
  -- halt or one that an older version left being an interruption.
  pub terminalize_outcome : t.completion.outcome ≡ outcome_of c.halt_reason
  unfolding terminalize_checkpoint decide_attempt_completion
  terminalize_outcome = ground arith

  -- When tokens ran out at a recorded instant and the reset interval is positive, the next attempt is
  -- eligible one interval after that instant, whenever the terminal write is made.
  pub terminalize_eligibility :
      (at : Time) (n : ℕ)
      → c.halt_reason ≡ HaltReason.token_exhausted
      → c.halted_at ≡ some at
      → reset ≡ pos n
      → 0 < n
      → t.completion.continuation.eligible_at ≡ some (at + n)
  unfolding terminalize_checkpoint decide_attempt_completion
  terminalize_eligibility at n h k r p = ground arith

  -- A checkpoint that is terminalized stops the retries exactly when its tokens ran out under a
  -- positive reset interval, in a fresh window, with no step done since the run's first step.
  pub terminalize_stopped_iff : (t.completion.continuation.kind ≡ ContinuationKind.stopped) ↔ (
      (c.halt_reason ≡ HaltReason.token_exhausted)
      × (is_positive reset ≡ true)
      × (ltb start_step c.completed_steps ≡ false)
      × (c.window_origin ≡ ProviderWindowOrigin.fresh))
  unfolding terminalize_checkpoint decide_attempt_completion
  terminalize_stopped_iff = (λ k. ground arith, λ k. ground arith)
