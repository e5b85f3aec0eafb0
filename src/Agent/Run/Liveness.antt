-- ===== src/Agent/Run/Liveness.antt =====
-- A run that nothing disturbs and whose allowance covers the plan completes.
use agent_inbox_question.Base.{
  ℕ, zero, suc, ◌+◌, ◌-◌, ◌<◌, ◌≤◌, ◌≡◌, refl, subst, ◌∙◌, String, true, Option, none, some, ok,
  err, List, [], ◌∷◌, length, get_elem?, arith, inl, inr, Option-cases,
}
use native.Mathlib.Numerals.{add-one}
use agent_inbox_question.Domain.Errors.{Fallible}
use agent_inbox_question.Agent.Plan.{Step, parse_directives, hash_input, bounded_hash, build_steps}
use agent_inbox_question.Agent.Plan.Laws.{build_steps_cost, bounded_hash_bounds}
use agent_inbox_question.Agent.Session.{SessionState, initial_state}
use agent_inbox_question.Agent.Commit.{Host}
use agent_inbox_question.Agent.Run.{
  OutcomeKind, Outcome, Round, stop, again, round, run_loop, run, advanced,
}
use agent_inbox_question.Agent.Run.Machine.{
  Moves, interrupting, erring, exhausting, stepping, completing, Follows, round-Follows,
}
use agent_inbox_question.Agent.Run.Rule.{Post, step_facts, run_total}
use agent_inbox_question.Agent.Run.Surroundings.{world_of, round_keeps}
use agent_inbox_question.Agent.Run.Quiet.{
  IsQuiet, IsQuietWhile, IsQuiet-IsQuietWhile, is_completed_kind, is_completed_result, continues,
  completes, complete-completes, loop_body-continues,
}
use agent_inbox_question.Agent.Run.Processed.{
  cost_from, cost_from-past, cost_from-zero, cost_from-next, Processed, Processed-past,
  Processed-next,
}

-- What a completed run leaves: the steps from the next one on are done, with their cost on the
-- account, and those before it are as they were.
abbrev pub Completes : SessionState → Fallible Outcome → SessionState → Type 0
Completes s r s' =
    (is_completed_result r ≡ true)
    × (s'.next_step ≡ length s.steps)
    × Processed s.next_step s.steps s'.steps
    × (s'.tokens_used ≡ s.tokens_used + cost_from s.steps s.next_step)

-- The move of a round that goes on, and what is left to pay after it.
stepped :
    (s s' : SessionState)
    → Moves 0 s s' none
    → cost_from s.steps s.next_step ≤ s.tokens_remaining
    → (cost_from s'.steps s'.next_step ≤ s'.tokens_remaining)
      × (s'.tokens_used + cost_from s'.steps s'.next_step
          ≡ s.tokens_used + cost_from s.steps s.next_step)
stepped s s' (interrupting t h k e) c = cc
stepped s s' (erring t message h f k e) c = cc
stepped s s' (exhausting t step h n x k e) c = cc
stepped s s' (completing t h n k e) c = cc
stepped s s' (stepping t step n x k e) c =
    rw (e, add-one)
      (
        omega (arith, cost_from-next s.steps s.next_step step _ n),
        omega (arith, cost_from-next s.steps s.next_step step _ n),
      )

ended :
    (s s' : SessionState) (k : Option OutcomeKind) (o : Outcome)
    → Moves 0 s s' k
    → k ≡ some o.kind
    → is_completed_kind o.kind ≡ true
    → (s'.next_step ≡ s.next_step) × (s'.tokens_used ≡ s.tokens_used) × (s'.steps ≡ s.steps)
ended s s' k o (interrupting t h q e) p c = (ground arith, ground arith, ground arith)
ended s s' k o (erring t message h f q e) p c = (ground arith, ground arith, ground arith)
ended s s' k o (exhausting t step h n x q e) p c = (ground arith, ground arith, ground arith)
ended s s' k o (stepping t step n x q e) p c = cc
ended s s' k o (completing t h n q e) p c = (ground arith, ground arith, ground arith)

past_end :
    (steps : List Step) (n : ℕ) → n ≤ length steps → get_elem? steps n ≡ none → n ≡ length steps
past_end [] n h e = omega arith
past_end (x ∷ xs) zero h e = cc
past_end (x ∷ xs) (suc n) h e = omega (arith, past_end xs n (omega arith) e)

cost_from-step :
    (steps : List Step) (n : ℕ) (step : Step)
    → get_elem? steps n ≡ some step
    → step.token_cost ≤ cost_from steps n
cost_from-step steps n step e = omega (arith, cost_from-next steps n step step e)

stepped-Processed :
    (s s' : SessionState) (ys : List Step)
    → Moves 0 s s' none
    → Processed s'.next_step s'.steps ys
    → Processed s.next_step s.steps ys
stepped-Processed s s' ys (interrupting t h k e) p = cc
stepped-Processed s s' ys (erring t message h f k e) p = cc
stepped-Processed s s' ys (exhausting t step h n x k e) p = cc
stepped-Processed s s' ys (completing t h n k e) p = cc
stepped-Processed s s' ys (stepping t step n x k e) p =
    Processed-next s.steps ys s.next_step step _ n (refl, refl, refl)
      (subst (λ (m : ℕ). Processed m (advanced s step).steps ys) (add-one s.next_step)
        (subst (λ (u : SessionState). Processed u.next_step u.steps ys) e p))

Post-mono :
    {W : Type 0} (P Q : Fallible Outcome → SessionState → Type 0)
    → ((r : Fallible Outcome) (s : SessionState) → P r s → Q r s)
    → (x : Option (Fallible Outcome × SessionState × W)) → Post P x
    → Post Q x
Post-mono P Q f none h = tt
Post-mono P Q f (some (r, s, w)) h = f r s h

module _ {W : Type 0} (P : W → Type 0) (host : Host W) (quiet : IsQuietWhile P host) where
  loop-Completes :
      (fuel : ℕ) (s : SessionState) (w : W)
      → length s.steps - s.next_step < fuel
      → s.next_step ≤ length s.steps
      → cost_from s.steps s.next_step ≤ s.tokens_remaining
      → P w
      → Post (Completes s) (run_loop host fuel 0 s w)
  unfolding run_loop round
  loop-Completes zero s w f b c p = tt
  loop-Completes (suc fuel) s w f b c p = elim (Option-cases (get_elem? s.steps s.next_step)) [
    | inl e ↦
        last e (round host 0 s w) (round-Follows host 0 s w)
          (rw (e, round) (complete-completes P host quiet s w p))
    | inr (step, e) ↦
        more (round host 0 s w) (round-Follows host 0 s w)
          (rw (e, round)
            (loop_body-continues P host quiet s step
              (omega (arith, cost_from-step s.steps s.next_step step e)) w p))
          (round_keeps P host quiet.keeps 0 s w p) (λ s' w'. loop-Completes fuel s' w')
  ]
    where
      last :
          get_elem? s.steps s.next_step ≡ none
          → (r : Round W) → Follows 0 s r
          → completes P host quiet r ≡ true
          → Post (Completes s) (elim r as (λ _. Option (Fallible Outcome × SessionState × W)) [
            | stop r' s' w' ↦ some (r', s', w')
            | again s' w' ↦ run_loop host fuel 0 s' w'
          ])
      last e (stop (ok o) s' w') (inl (x, y)) d = cc
      last e (stop (ok o) s' w') (inr (k, m, h)) d =
          let (x, y, z) = ended s s' k o m h d in
          (
            d,
            x ∙ past_end s.steps s.next_step b e,
            rw z (
                Processed-past s.steps s.next_step
                  (omega (arith, past_end s.steps s.next_step b e))),
            omega (arith, y, cost_from-past s.steps s.next_step e),
          )
      last e (stop (err a) s' w') g d = cc
      last e (again s' w') g d = cc

      more :
          (r : Round W)
          → Follows 0 s r
          → continues P host quiet r ≡ true
          → P (world_of r)
          → ((s' : SessionState) (w' : W)
              → length s'.steps - s'.next_step < fuel
              → s'.next_step ≤ length s'.steps
              → cost_from s'.steps s'.next_step ≤ s'.tokens_remaining
              → P w'
              → Post (Completes s') (run_loop host fuel 0 s' w'))
          → Post (Completes s) (elim r as (λ _. Option (Fallible Outcome × SessionState × W)) [
            | stop r' s' w' ↦ some (r', s', w')
            | again s' w' ↦ run_loop host fuel 0 s' w'
          ])
      more (stop r s' w') g d q ih = cc
      more (again s' w') m d p' ih =
          let (p, q, l, _, _, _) = step_facts 0 s s' m in
          let (c', u) = stepped s s' m c in
          Post-mono (Completes s') (Completes s)
            (λ r t (x, y, a, z). (x, y ∙ q, stepped-Processed s s' t.steps m a, z ∙ u)) _
            (ih s' w' (omega (arith, p, q, l)) (omega (arith, p, q, l)) c' p')

-- On a host that is quiet as long as what it keeps holds.
pub run-Completes_while :
    {W : Type 0} (P : W → Type 0) (host : Host W) (s : SessionState) (w : W)
    → IsQuietWhile P host
    → P w
    → s.errored_at ≡ 0
    → s.next_step ≤ length s.steps
    → cost_from s.steps s.next_step ≤ s.tokens_remaining
    → (x : Fallible Outcome × SessionState × W) × (run host s w ≡ some x) × Completes s x.0 x.1
unfolding run
run-Completes_while P host s w quiet holds no_failure bound covered =
    let (x, e) = run_total host s w in
    (
      x,
      e,
      subst (Post (Completes s)) e
          (simp no_failure (loop-Completes P host quiet _ s w (omega arith) bound covered holds)),
    )

-- On a host that never cancels, interrupts or fails, a session with no failure planned whose
-- remaining tokens cover its remaining steps completes: the run has a result, which is completion;
-- the next step and all behind it are done, under the same names and costs, the steps before it are
-- as they were, and exactly the cost of those that were done is used.
pub run-Completes :
    {W : Type 0} (host : Host W) (s : SessionState) (w : W)
    → IsQuiet host
    → s.errored_at ≡ 0
    → s.next_step ≤ length s.steps
    → cost_from s.steps s.next_step ≤ s.tokens_remaining
    → (x : Fallible Outcome × SessionState × W) × (run host s w ≡ some x) × Completes s x.0 x.1
run-Completes host s w quiet =
    run-Completes_while (λ v. Unit {0}) host s w (IsQuiet-IsQuietWhile host quiet) tt

-- The default budget covers the plan of a new session with one piece of feedback at most.
pub initial_state_covered :
    (quote : String → String) (id title description : String) (feedback : List String)
    → (parse_directives description).steps ≡ none
    → (parse_directives description).budget ≡ none
    → length feedback ≤ 1
    → let s = initial_state quote id title description feedback in
      cost_from s.steps s.next_step ≤ s.tokens_remaining
unfolding initial_state
initial_state_covered quote id title description feedback no_steps no_budget few =
    rw (no_budget, no_steps)
      (omega (
        arith,
        few,
        build_steps_cost quote (hash_input title description)
            (bounded_hash (hash_input title description) 0 4 8) feedback,
        (bounded_hash_bounds (hash_input title description) 0 4 8 (omega arith)).1,
        cost_from-zero (
            build_steps quote (hash_input title description)
              (bounded_hash (hash_input title description) 0 4 8) feedback),
      ))

-- On a host that never cancels, interrupts or fails, a new session whose description has no
-- directive, with one piece of feedback at most, completes: the run has a result, which is
-- completion, with every step of the plan done and exactly their cost used.
pub default_plan-Completes :
    {W : Type 0} (host : Host W) (w : W) (quote : String → String) (id title description : String)
    (feedback : List String)
    → IsQuiet host
    → (parse_directives description).steps ≡ none
    → (parse_directives description).fail_at ≡ none
    → (parse_directives description).budget ≡ none
    → length feedback ≤ 1
    → (x : Fallible Outcome × SessionState × W) × (run host
          (initial_state quote id title description feedback)
          w
        ≡ some x)
      × Completes (initial_state quote id title description feedback) x.0 x.1
unfolding initial_state
default_plan-Completes host w quote id title description feedback quiet no_steps no_fail no_budget
      few =
    run-Completes host (initial_state quote id title description feedback) w quiet (rw no_fail)
      (omega arith)
      (initial_state_covered quote id title description feedback no_steps no_budget few)
