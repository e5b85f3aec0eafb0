-- ===== src/Agent/Run/Rule.antt =====
-- The loop ends, and what every move keeps holds of its result.
use agent_inbox_question.Base.{
  inl, inr, ℕ, zero, suc, ◌+◌, ◌-◌, ◌<◌, ◌≡◌, refl, subst, false, Option, none, some, ok, err,
  is_ok, List, [], ◌∷◌, length, length-set, get_elem?, arith,
}
use agent_inbox_question.Domain.Errors.{Fallible}
use agent_inbox_question.Agent.Plan.{Step}
use agent_inbox_question.Agent.Session.{SessionState}
use agent_inbox_question.Agent.Commit.{Host}
use agent_inbox_question.Agent.Run.{OutcomeKind, Outcome, Round, stop, again, round, run_loop, run}
use agent_inbox_question.Agent.Run.Machine.{
  Moves, Named, interrupting, erring, exhausting, stepping, completing, Follows, round-Follows,
}

pub lt_of_get_elem? :
    (steps : List Step) (i : ℕ) {step : Step} → get_elem? steps i ≡ some step → i < length steps
lt_of_get_elem? [] i e = cc
lt_of_get_elem? (x ∷ xs) zero e = omega arith
lt_of_get_elem? (x ∷ xs) (suc i) e = omega (arith, lt_of_get_elem? xs i e)

-- A move that goes on does the next step and pays for it.
pub step_facts :
    (fail_at : ℕ) (s s' : SessionState)
    → Moves fail_at s s' none
    → (s'.next_step ≡ s.next_step + 1)
      × (length s'.steps ≡ length s.steps)
      × (s.next_step < length s.steps)
      × (s'.tokens_used + s'.tokens_remaining ≡ s.tokens_used + s.tokens_remaining)
      × (s'.attempt_token_allowance ≡ s.attempt_token_allowance)
      × (s'.attempt_start_step ≡ s.attempt_start_step)
step_facts fail_at s s' (interrupting t h k e) = cc
step_facts fail_at s s' (erring t message h f k e) = cc
step_facts fail_at s s' (exhausting t step h n c k e) = cc
step_facts fail_at s s' (completing t h n k e) = cc
step_facts fail_at s s' (stepping t step n c k e) = rw e (
  refl,
  length-set s.steps s.next_step _,
  lt_of_get_elem? s.steps s.next_step n,
  omega arith,
  refl,
  refl,
)

abbrev pub Post :
    {W : Type 0}
    → (Fallible Outcome → SessionState → Type 0)
    → Option (Fallible Outcome × SessionState × W)
    → Type 0
Post Q none = Unit {0}
Post Q (some (r, s, w)) = Q r s

module _ {W : Type 0} (host : Host W) (fail_at : ℕ) where
  -- An invariant of the moves that go on, and what follows from it at the end.
  module _ (P : SessionState → Type 0) (Q : Fallible Outcome → SessionState → Type 0)
      (keep : (s s' : SessionState) → P s → Moves fail_at s s' none → P s')
      (refused : (s : SessionState) (r : Fallible Outcome) → P s → is_ok r ≡ false → Q r s)
      (ended : (s s' : SessionState) (k : Option OutcomeKind) (r : Fallible Outcome)
        → P s
        → Moves fail_at s s' k
        → Named k r
        → Q r s') where
    pub run_loop_rule :
        (fuel : ℕ) (s : SessionState) (w : W) → P s → Post Q (run_loop host fuel fail_at s w)
    unfolding run_loop
    run_loop_rule zero s w p = tt
    run_loop_rule (suc fuel) s w p =
        go (round host fail_at s w) (round-Follows host fail_at s w)
          (λ s' w'. run_loop_rule fuel s' w')
      where
        go :
            (r : Round W)
            → Follows fail_at s r
            → ((s' : SessionState) (w' : W) → P s' → Post Q (run_loop host fuel fail_at s' w'))
            → Post Q (elim r as (λ _. Option (Fallible Outcome × SessionState × W)) [
              | stop r' s' w' ↦ some (r', s', w')
              | again s' w' ↦ run_loop host fuel fail_at s' w'
            ])
        go (stop r s' w') (inl (a, b)) next = rw b (refused s r p a)
        go (stop r s' w') (inr (k, m, h)) next = ended s s' k r p m h
        go (again s' w') m next = next s' w' (keep s s' p m)

  run_loop_total :
      (fuel : ℕ) (s : SessionState) (w : W)
      → length s.steps - s.next_step < fuel
      → (x : Fallible Outcome × SessionState × W) × (run_loop host fuel fail_at s w ≡ some x)
  unfolding run_loop
  run_loop_total zero s w h = elim h [ ]
  run_loop_total (suc fuel) s w h =
      go (round host fail_at s w) (round-Follows host fail_at s w)
        (λ s' w'. run_loop_total fuel s' w')
    where
      go :
          (r : Round W)
          → Follows fail_at s r
          → ((s' : SessionState) (w' : W)
              → length s'.steps - s'.next_step < fuel
              → (x : Fallible Outcome × SessionState × W) × (run_loop host fuel fail_at s' w'
                  ≡ some x))
          → (x : Fallible Outcome × SessionState × W) × ((elim r
                as (λ _. Option (Fallible Outcome × SessionState × W)) [
                  | stop r' s' w' ↦ some (r', s', w')
                  | again s' w' ↦ run_loop host fuel fail_at s' w'
                ])
              ≡ some x)
      go (stop r s' w') f next = ((r, s', w'), refl)
      go (again s' w') m next =
          let (a, b, c, _, _, _) = step_facts fail_at s s' m in next s' w' (omega (arith, a, b, c))

pub Named-ok :
    (k : Option OutcomeKind) (r : Fallible Outcome) (o : Outcome)
    → Named k r
    → r ≡ ok o
    → k ≡ some o.kind
Named-ok k (ok o') o h e = ground arith
Named-ok k (err x) o h e = cc

-- What a rule proves of a run, at the result that it has.
pub Post-at :
    {W : Type 0} (Q : Fallible Outcome → SessionState → Type 0)
    (x : Option (Fallible Outcome × SessionState × W)) (r : Fallible Outcome) (s : SessionState)
    (w : W)
    → Post Q x
    → x ≡ some (r, s, w)
    → Q r s
Post-at Q x r s w h e = subst (Post Q) e h

-- A run ends, with a result or an error, whatever its host does.
pub run_total :
    {W : Type 0} (host : Host W) (s : SessionState) (w : W)
    → (x : Fallible Outcome × SessionState × W) × (run host s w ≡ some x)
unfolding run
run_total host s w =
    run_loop_total host s.errored_at (suc (length s.steps - s.next_step)) s w (omega arith)
