-- ===== src/Agent/Run/Results.antt =====
-- What a run leaves: the account of tokens, the halt that fits the outcome, and the step that did
-- not fit the window.
use agent_inbox_question.Base.{
  ℕ, ◌+◌, ◌<◌, ◌≤◌, ◌≡◌, refl, true, Option, none, some, ok, is_some, length, get_elem?, arith,
}
use agent_inbox_question.Domain.Errors.{Fallible}
use agent_inbox_question.Agent.Plan.{Step}
use agent_inbox_question.Agent.Session.{SessionState, HaltReason}
use agent_inbox_question.Agent.Commit.{Host}
use agent_inbox_question.Agent.Run.{OutcomeKind, Outcome, run}
use agent_inbox_question.Agent.Run.Machine.{
  Moves, interrupting, erring, exhausting, stepping, completing,
}
use agent_inbox_question.Agent.Run.Rule.{step_facts, Post-at, Named-ok, run_loop_rule}

-- The account of an attempt: what is used and what remains make up the allowance.
pub record IsSound (s : SessionState) : Type 0 where
  pub in_plan : s.next_step ≤ length s.steps
  pub begun : s.attempt_start_step ≤ s.next_step
  pub balanced : s.tokens_used + s.tokens_remaining ≡ s.attempt_token_allowance

Moves-IsSound :
    (fail_at : ℕ) (s s' : SessionState) (k : Option OutcomeKind)
    → IsSound s
    → Moves fail_at s s' k
    → IsSound s'
Moves-IsSound fail_at s s' k v (interrupting t h _ e) =
    rw e (record { in_plan = v.in_plan; begun = v.begun; balanced = v.balanced })
Moves-IsSound fail_at s s' k v (erring t message h f _ e) =
    rw e (record { in_plan = v.in_plan; begun = v.begun; balanced = v.balanced })
Moves-IsSound fail_at s s' k v (exhausting t step h n c _ e) =
    rw e (record { in_plan = v.in_plan; begun = v.begun; balanced = v.balanced })
Moves-IsSound fail_at s s' k v (completing t h n _ e) =
    rw e (record { in_plan = v.in_plan; begun = v.begun; balanced = v.balanced })
Moves-IsSound fail_at s s' k v (stepping t step n c _ e) =
    let (a, b, l, u, w, x) = step_facts fail_at s s' (stepping t step n c refl e) in
    record {
      in_plan = omega (arith, v, a, b, l);
      begun = omega (arith, v, a, x);
      balanced = omega (arith, v, u, w);
    }

-- A run from a sound state ends in a sound one, with an outcome or an error, whatever its host does.
pub run-IsSound :
    {W : Type 0} (host : Host W) (s s' : SessionState) (w w' : W) (r : Fallible Outcome)
    → IsSound s
    → run host s w ≡ some (r, s', w')
    → IsSound s'
unfolding run
run-IsSound host s s' w w' r v e =
    Post-at (λ r s'. IsSound s') _ r s' w'
      (run_loop_rule host s.errored_at IsSound (λ r s'. IsSound s')
        (λ s s' p m. Moves-IsSound _ s s' none p m) (λ s r p _. p)
        (λ s s' k r p m _. Moves-IsSound _ s s' k p m) _ s w v)
      e

-- The halt reason that each kind of outcome leaves behind.
abbrev pub halt_of : OutcomeKind → HaltReason
halt_of OutcomeKind.unknown = HaltReason.unset
halt_of OutcomeKind.completed = HaltReason.completed
halt_of OutcomeKind.errored = HaltReason.agent_error
halt_of OutcomeKind.token_budget_exhausted = HaltReason.token_exhausted
halt_of OutcomeKind.interrupted = HaltReason.interrupted

-- What an outcome says of the state that it comes with.
abbrev Reports : Fallible Outcome → SessionState → Type 0
Reports r s' =
    (o : Outcome)
    → r ≡ ok o
    → (s'.attempt_halt_reason ≡ halt_of o.kind) × (is_some s'.attempt_halted_at ≡ true)

Moves-Reports :
    (fail_at : ℕ) (s s' : SessionState) (k : Option OutcomeKind) (o : Outcome)
    → Moves fail_at s s' k
    → k ≡ some o.kind
    → (s'.attempt_halt_reason ≡ halt_of o.kind) × (is_some s'.attempt_halted_at ≡ true)
Moves-Reports fail_at s s' k o (interrupting t h q e) p = ground arith
Moves-Reports fail_at s s' k o (erring t message h f q e) p = ground arith
Moves-Reports fail_at s s' k o (exhausting t step h n c q e) p = ground arith
Moves-Reports fail_at s s' k o (completing t h n q e) p = ground arith
Moves-Reports fail_at s s' k o (stepping t step n c q e) p = cc

-- A run with an outcome leaves a state whose halt reason is that outcome's and whose halt has a time.
pub run_halts :
    {W : Type 0} (host : Host W) (s s' : SessionState) (w w' : W) (o : Outcome)
    → run host s w ≡ some (ok o, s', w')
    → (s'.attempt_halt_reason ≡ halt_of o.kind) × (is_some s'.attempt_halted_at ≡ true)
unfolding run
run_halts host s s' w w' o e =
    Post-at Reports _ (ok o) s' w'
      (run_loop_rule host s.errored_at (λ s. Unit {0}) Reports (λ s s' p m. tt)
        (λ s r p bad o e. absurd (ground arith))
        (λ s s' k r p m h o e. Moves-Reports _ s s' k o m (Named-ok k r o h e)) _ s w tt)
      e o refl

-- Exhaustion with no step done since step `n` shows a step that costs more than the allowance.
abbrev Oversized : ℕ → Fallible Outcome → SessionState → Type 0
Oversized n r s' =
    (o : Outcome)
    → r ≡ ok o
    → o.kind ≡ OutcomeKind.token_budget_exhausted
    → s'.next_step ≡ n
    → (step : Step) × (get_elem? s'.steps n ≡ some step)
      × (s'.attempt_token_allowance < step.token_cost)

-- A window that is untouched as long as no step was done.
record IsUntouched (n : ℕ) (s : SessionState) : Type 0 where
  sound : IsSound s
  from : n ≤ s.next_step
  unused : s.next_step ≡ n → s.tokens_used ≡ 0

Moves-Oversized :
    (n fail_at : ℕ) (s s' : SessionState) (k : Option OutcomeKind) (o : Outcome)
    → IsUntouched n s
    → Moves fail_at s s' k
    → k ≡ some o.kind
    → o.kind ≡ OutcomeKind.token_budget_exhausted
    → s'.next_step ≡ n
    → (step : Step) × (get_elem? s'.steps n ≡ some step)
      × (s'.attempt_token_allowance < step.token_cost)
Moves-Oversized n fail_at s s' k o v (interrupting t h q e) p x y = cc
Moves-Oversized n fail_at s s' k o v (erring t message h f q e) p x y = cc
Moves-Oversized n fail_at s s' k o v (completing t h m q e) p x y = cc
Moves-Oversized n fail_at s s' k o v (stepping t step m c q e) p x y = cc
Moves-Oversized n fail_at s s' k o v (exhausting t step h m c q e) p x y =
    let at : s.next_step ≡ n = ground arith in
    let none_used : s.tokens_used ≡ 0 = v.unused at in
    let balance : s.tokens_used + s.tokens_remaining ≡ s.attempt_token_allowance =
      v.sound.balanced in
    let same : s'.attempt_token_allowance ≡ s.attempt_token_allowance = ground arith in
    let steps : s'.steps ≡ s.steps = ground arith in (step, rw (steps, ← at) m, omega arith)

keep-IsUntouched :
    (n fail_at : ℕ) (s s' : SessionState)
    → IsUntouched n s
    → Moves fail_at s s' none
    → IsUntouched n s'
keep-IsUntouched n fail_at s s' v m =
    let (a, _, _, _, _, _) = step_facts fail_at s s' m in
    record {
      sound = Moves-IsSound fail_at s s' none v.sound m;
      from = omega (arith, a, v.from);
      unused = λ e. absurd (omega (arith, a, v.from, e));
    }

-- A run from a sound state with no token used, which ends exhausted at the step where it began, met
-- a step that costs more than the whole allowance.
pub run_oversized :
    {W : Type 0} (host : Host W) (s s' : SessionState) (w w' : W) (o : Outcome)
    → IsSound s
    → s.tokens_used ≡ 0
    → run host s w ≡ some (ok o, s', w')
    → o.kind ≡ OutcomeKind.token_budget_exhausted
    → s'.next_step ≡ s.next_step
    → (step : Step) × (get_elem? s'.steps s.next_step ≡ some step)
      × (s'.attempt_token_allowance < step.token_cost)
unfolding run
run_oversized host s s' w w' o v z e k same =
    Post-at (Oversized s.next_step) _ (ok o) s' w'
      (run_loop_rule host s.errored_at (IsUntouched s.next_step) (Oversized s.next_step)
        (λ t t' p m. keep-IsUntouched s.next_step _ t t' p m)
        (λ t r p bad o e _ _. absurd (ground arith))
        (λ t t' k r p m h o e x y.
          Moves-Oversized s.next_step _ t t' k o p m (Named-ok k r o h e) x y)
        _ s w (record { sound = v; from = omega arith; unused = λ _. z }))
      e o refl k same
