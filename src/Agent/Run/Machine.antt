-- ===== src/Agent/Run/Machine.antt =====
-- The state machine that the loop implements: the moves of a session, and that each round of the
-- loop makes one of them or leaves the state as it was.
pub mod Causes
pub mod Rounds
use agent_inbox_question.Base.{
  ℕ, ◌+◌, ◌<◌, ◌≤◌, ◌≡◌, refl, String, Time, true, false, Option, none, some, ok, err, is_ok, not,
  is_some, get_elem?, ltb, ◌==◌, ◌&&◌, ◌⊎◌, ◌∙◌, inl, inr, arith, Bool-cases, Option-cases,
  Result-cases,
}
use agent_inbox_question.Domain.Errors.{Fallible}
use agent_inbox_question.Agent.Plan.{Step}
use agent_inbox_question.Agent.Session.{SessionState}
use agent_inbox_question.Agent.Commit.{
  Event, Host, is_terminal, stamp, call_commit, full_commit, persist_then_commit,
  commit_then_persist, commit_state,
}
use agent_inbox_question.Agent.Run.{
  OutcomeKind, Outcome, interrupted_state, errored_state, exhausted_state, completed_state,
  error_message_at, call_fence, Round, stop, again, stop_with, go_on, interrupt, advanced,
  take_step, fence_again, delay_step, agent_error, exhaust, attempt_step, fenced_step, loop_body,
  complete, round,
}

-- A move from `s` to `s'`; `k` is the kind of outcome that it ends with, if it ends the attempt.
pub data Moves (fail_at : ℕ) (s s' : SessionState) (k : Option OutcomeKind) : Type 0 where
  interrupting :
      (t : Option Time)
      → is_some t ≡ true
      → k ≡ some OutcomeKind.interrupted
      → s' ≡ record (interrupted_state s) { attempt_halted_at = t }
      → Moves fail_at s s' k
  erring :
      (t : Option Time) (message : String)
      → is_some t ≡ true
      → s.next_step + 1 ≡ fail_at
      → k ≡ some OutcomeKind.errored
      → s' ≡ record (errored_state message s) { attempt_halted_at = t }
      → Moves fail_at s s' k
  exhausting :
      (t : Option Time) (step : Step)
      → is_some t ≡ true
      → get_elem? s.steps s.next_step ≡ some step
      → s.tokens_remaining < step.token_cost
      → k ≡ some OutcomeKind.token_budget_exhausted
      → s' ≡ record (exhausted_state s) { attempt_halted_at = t }
      → Moves fail_at s s' k
  stepping :
      (t : Option Time) (step : Step)
      → get_elem? s.steps s.next_step ≡ some step
      → step.token_cost ≤ s.tokens_remaining
      → k ≡ none
      → s' ≡ record (advanced s step) { attempt_halted_at = t }
      → Moves fail_at s s' k
  completing :
      (t : Option Time)
      → is_some t ≡ true
      → get_elem? s.steps s.next_step ≡ none
      → k ≡ some OutcomeKind.completed
      → s' ≡ record (completed_state s) { attempt_halted_at = t }
      → Moves fail_at s s' k

-- What a commit leaves: the previous state, by a refusal, or the new one with its time.
abbrev Settles :
    {W : Type 0} → SessionState → SessionState → Fallible (Unit {0}) × SessionState × W → Type 0
Settles previous s x =
    ((is_ok x.0 ≡ false) × (x.1 ≡ previous))
    ⊎ ((t : Option Time) × (x.1 ≡ record s { attempt_halted_at = t })
        × (is_terminal s.attempt_halt_reason ≡ true → is_some t ≡ true))

module _ {W : Type 0} (host : Host W) where
  stamp_shape :
      (s : SessionState) (w : W)
      → (t : Option Time) × ((stamp host s w).0 ≡ record s { attempt_halted_at = t })
        × (is_terminal s.attempt_halt_reason ≡ true → is_some t ≡ true)
  unfolding stamp
  stamp_shape s w =
      elim (Bool-cases (is_terminal s.attempt_halt_reason && not (is_some s.attempt_halted_at))) [
        | inl e ↦ (some (host.now w).0, rw e, λ _. refl)
        | inr e ↦ (s.attempt_halted_at, rw e, λ h. ground arith)
      ]

  commit_then_persist_shape :
      (previous s : SessionState) (event : Option Event) (w : W)
      → ((is_ok (commit_then_persist host previous s event w).0 ≡ false)
          × ((commit_then_persist host previous s event w).1 ≡ previous))
        ⊎ ((commit_then_persist host previous s event w).1 ≡ s)
  unfolding commit_then_persist
  commit_then_persist_shape previous s event w =
      elim (Result-cases (call_commit host host.commit (full_commit host s event) w).0) [
        | inl (u, e) ↦ inr (rw (e, commit_then_persist))
        | inr (x, e) ↦ inl (rw (e, commit_then_persist), rw (e, commit_then_persist))
      ]

  persist_then_commit_shape :
      (s : SessionState) (event : Option Event) (w : W) → (persist_then_commit host s event w).1 ≡ s
  unfolding persist_then_commit
  persist_then_commit_shape s event w = elim (Result-cases (host.persist s w).0) [
    | inl (u, e) ↦ rw (e, persist_then_commit)
    | inr (x, e) ↦ rw (e, persist_then_commit)
  ]

  commit_state-Settles :
      (previous s : SessionState) (event : Option Event) (w : W)
      → Settles previous s (commit_state host previous s event w)
  unfolding commit_state
  commit_state-Settles previous s event w =
      let (t, e, m) = stamp_shape s w in
      let (s', w') = stamp host s w in
      elim (Bool-cases (is_some host.fence)) [
        | inl f ↦ rw f (elim (commit_then_persist_shape previous s' event w') [
          | inl refused ↦ inl refused
          | inr kept ↦ inr (t, kept ∙ e, m)
        ])
        | inr f ↦ rw f (inr (t, persist_then_commit_shape s' event w' ∙ e, m))
      ]

-- An outcome is of the kind that its move ends with.
abbrev pub Named : Option OutcomeKind → Fallible Outcome → Type 0
Named k (ok o) = k ≡ some o.kind
Named k (err e) = Unit {0}

-- What a round may be: a refusal that leaves the state, or a move.
abbrev pub Follows : {W : Type 0} → ℕ → SessionState → Round W → Type 0
Follows fail_at s (stop r s' w) =
    ((is_ok r ≡ false) × (s' ≡ s)) ⊎ ((k : Option OutcomeKind) × Moves fail_at s s' k × Named k r)
Follows fail_at s (again s' w) = Moves fail_at s s' none

module _ {W : Type 0} (host : Host W) (fail_at : ℕ) (s : SessionState) where
  -- A terminal commit whose new state is a move.
  stop_with-Follows :
      (s' : SessionState) (o : Outcome) (x : Fallible (Unit {0}) × SessionState × W)
      → Settles s s' x
      → ((t : Option Time)
          → is_some t ≡ true
          → Moves fail_at s (record s' { attempt_halted_at = t }) (some o.kind))
      → is_terminal s'.attempt_halt_reason ≡ true
      → Follows fail_at s (stop_with host o x)
  stop_with-Follows s' o (err e, s'', w) (inl (a, b)) move h = inl (refl, b)
  stop_with-Follows s' o (ok u, s'', w) (inl (a, b)) move h = cc
  stop_with-Follows s' o (err e, s'', w) (inr (t, b, m)) move h =
      inr (some o.kind, rw b (move t (m h)), tt)
  stop_with-Follows s' o (ok u, s'', w) (inr (t, b, m)) move h =
      inr (some o.kind, rw b (move t (m h)), refl)

  interrupt-Follows : (w : W) → Follows fail_at s (interrupt host s w)
  unfolding interrupt
  interrupt-Follows w =
      stop_with-Follows (interrupted_state s) _ _ (commit_state-Settles host s _ none w)
        (λ t h. interrupting t h refl refl) refl

  go_on-Follows :
      (s' : SessionState) (x : Fallible (Unit {0}) × SessionState × W)
      → Settles s s' x
      → ((t : Option Time) → Moves fail_at s (record s' { attempt_halted_at = t }) none)
      → Follows fail_at s (go_on host x)
  go_on-Follows s' (err e, s'', w) (inl (a, b)) move = inl (refl, b)
  go_on-Follows s' (ok u, s'', w) (inl (a, b)) move = cc
  go_on-Follows s' (err e, s'', w) (inr (t, b, m)) move = inr (none, rw b (move t), tt)
  go_on-Follows s' (ok u, s'', w) (inr (t, b, m)) move = rw b (move t)

  module _ (step : Step) (next : get_elem? s.steps s.next_step ≡ some step) where
    take_step-Follows :
        (w : W) → step.token_cost ≤ s.tokens_remaining → Follows fail_at s (take_step host s step w)
    unfolding take_step
    take_step-Follows w c =
        go_on-Follows (advanced s step) _ (commit_state-Settles host s _ _ w)
          (λ t. stepping t step next c refl refl)

    fence_again-Follows :
        (w : W)
        → step.token_cost ≤ s.tokens_remaining
        → Follows fail_at s (fence_again host s step w)
    unfolding fence_again
    fence_again-Follows w c = elim (Result-cases (call_fence host host.fence w).0) [
      | inl (u, e) ↦ rw (e, fence_again) (take_step-Follows _ c)
      | inr (x, e) ↦ rw (e, fence_again) (inl (refl, refl))
    ]

    delay_step-Follows :
        (w : W)
        → step.token_cost ≤ s.tokens_remaining
        → Follows fail_at s (delay_step host s step w)
    unfolding delay_step
    delay_step-Follows w c = elim (Bool-cases (host.sleep w).0) [
      | inl e ↦ rw (e, delay_step) (interrupt-Follows _)
      | inr e ↦ rw (e, delay_step) (fence_again-Follows _ c)
    ]

    agent_error-Follows :
        (w : W) → s.next_step + 1 ≡ fail_at → Follows fail_at s (agent_error host s step w)
    unfolding agent_error
    agent_error-Follows w f =
        stop_with-Follows (errored_state (error_message_at s step) s) _ _
          (commit_state-Settles host s _ none w) (λ t h. erring t _ h f refl refl) refl

    exhaust-Follows :
        (w : W) → s.tokens_remaining < step.token_cost → Follows fail_at s (exhaust host s w)
    unfolding exhaust
    exhaust-Follows w c =
        stop_with-Follows (exhausted_state s) _ _ (commit_state-Settles host s _ none w)
          (λ t h. exhausting t step h next c refl refl) refl

    attempt_step-Follows : (w : W) → Follows fail_at s (attempt_step host fail_at s step w)
    unfolding attempt_step
    attempt_step-Follows w = elim (Bool-cases (ltb 0 fail_at && s.next_step + 1 == fail_at)) [
      | inl f ↦ rw f (agent_error-Follows w (ground arith))
      | inr f ↦ rw f (elim (Bool-cases (ltb s.tokens_remaining step.token_cost)) [
        | inl c ↦ rw c (exhaust-Follows w (ground arith))
        | inr c ↦ rw c (elim (Bool-cases host.no_delay) [
          | inl d ↦ simp d (take_step-Follows w (ground arith))
          | inr d ↦ simp d (delay_step-Follows w (ground arith))
        ])
      ])
    ]

    loop_body-Follows : (w : W) → Follows fail_at s (loop_body host fail_at s step w)
    unfolding loop_body fenced_step
    loop_body-Follows w = elim (Bool-cases (host.canceled w).0) [
      | inl e ↦ rw (e, loop_body) (interrupt-Follows _)
      | inr e ↦
          rw (e, loop_body)
            (elim (Result-cases (call_fence host host.fence (host.canceled w).1).0) [
              | inl (u, g) ↦ rw (g, fenced_step) (attempt_step-Follows _)
              | inr (x, g) ↦ rw (g, fenced_step) (inl (refl, refl))
            ])
    ]

  complete-Follows :
      (w : W) → get_elem? s.steps s.next_step ≡ none → Follows fail_at s (complete host s w)
  unfolding complete
  complete-Follows w e =
      stop_with-Follows (completed_state s) _ _ (commit_state-Settles host s _ _ w)
        (λ t h. completing t h e refl refl) refl

  -- Each round of the loop is a move of the machine, or an error that leaves the state as it was.
  pub round-Follows : (w : W) → Follows fail_at s (round host fail_at s w)
  unfolding round
  round-Follows w = elim (Option-cases (get_elem? s.steps s.next_step)) [
    | inl e ↦ rw (e, round) (complete-Follows w e)
    | inr (step, e) ↦ rw (e, round) (loop_body-Follows step e w)
  ]
