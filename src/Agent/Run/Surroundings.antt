-- ===== src/Agent/Run/Surroundings.antt =====
-- What each operation of a host keeps of the world round the loop, a whole run keeps.
use agent_inbox_question.Base.{
  ℕ, zero, suc, Option, none, some, ok, err, inl, inr, get_elem?, ltb, ◌+◌, ◌==◌, ◌&&◌, is_some,
  not, Bool-cases, Option-cases, Result-cases,
}
use agent_inbox_question.Domain.Errors.{Fallible}
use agent_inbox_question.Agent.Plan.{Step}
use agent_inbox_question.Agent.Session.{SessionState}
use agent_inbox_question.Agent.Commit.{
  Event, Host, StateCommit, call_commit, full_commit, stamp, is_terminal, commit_then_persist,
  persist_then_commit, commit_state,
}
use agent_inbox_question.Agent.Run.{
  Outcome, Round, stop, again, call_fence, interrupt, agent_error, exhaust, take_step, fence_again,
  delay_step, attempt_step, fenced_step, loop_body, complete, go_on, stop_with, round, run_loop,
  run, run_fenced,
}

-- Every operation of the host keeps `P`.
pub record Keeps {W : Type 0} (P : W → Type 0) (host : Host W) : Type 0 where
  pub on_canceled : (w : W) → P w → P (host.canceled w).1
  pub on_sleep : (w : W) → P w → P (host.sleep w).1
  pub on_fence : (w : W) → P w → P (call_fence host host.fence w).1
  pub on_commit : (c : StateCommit) (w : W) → P w → P (call_commit host host.commit c w).1
  pub on_persist : (s : SessionState) (w : W) → P w → P (host.persist s w).1
  pub on_now : (w : W) → P w → P (host.now w).1

abbrev pub world_of : {W : Type 0} → Round W → W
world_of (stop r s w) = w
world_of (again s w) = w

abbrev pub Left :
    {W : Type 0} → (W → Type 0) → Option (Fallible Outcome × SessionState × W) → Type 0
Left P none = Unit {0}
Left P (some (r, s, w)) = P w

module _ {W : Type 0} (P : W → Type 0) (host : Host W) (k : Keeps P host) where
  pub stamp_keeps : (s : SessionState) (w : W) → P w → P (stamp host s w).1
  unfolding stamp
  stamp_keeps s w p =
      elim (Bool-cases (is_terminal s.attempt_halt_reason && not (is_some s.attempt_halted_at))) [
        | inl e ↦ rw e (k.on_now w p)
        | inr e ↦ rw e p
      ]

  persist_then_commit_keeps :
      (s : SessionState) (event : Option Event) (w : W)
      → P w
      → P (persist_then_commit host s event w).2
  unfolding persist_then_commit
  persist_then_commit_keeps s event w p = elim (Result-cases (host.persist s w).0) [
    | inl (u, e) ↦ rw (e, persist_then_commit) (k.on_commit _ _ (k.on_persist s w p))
    | inr (x, e) ↦ rw (e, persist_then_commit) (k.on_persist s w p)
  ]

  commit_then_persist_keeps :
      (previous s : SessionState) (event : Option Event) (w : W)
      → P w
      → P (commit_then_persist host previous s event w).2
  unfolding commit_then_persist
  commit_then_persist_keeps previous s event w p =
      elim (Result-cases (call_commit host host.commit (full_commit host s event) w).0) [
        | inl (u, e) ↦ rw (e, commit_then_persist) (k.on_persist s _ (k.on_commit _ w p))
        | inr (x, e) ↦ rw (e, commit_then_persist) (k.on_commit _ w p)
      ]

  commit_state_keeps :
      (previous s : SessionState) (event : Option Event) (w : W)
      → P w
      → P (commit_state host previous s event w).2
  unfolding commit_state
  commit_state_keeps previous s event w p = elim (Bool-cases (is_some host.fence)) [
    | inl e ↦ simp e (commit_then_persist_keeps previous _ event _ (stamp_keeps s w p))
    | inr e ↦ simp e (persist_then_commit_keeps _ event _ (stamp_keeps s w p))
  ]

  stop_with_keeps :
      (o : Outcome) (x : Fallible (Unit {0}) × SessionState × W)
      → P x.2
      → P (world_of (stop_with host o x))
  stop_with_keeps o (ok u, s, w) p = p
  stop_with_keeps o (err e, s, w) p = p

  go_on_keeps : (x : Fallible (Unit {0}) × SessionState × W) → P x.2 → P (world_of (go_on host x))
  go_on_keeps (ok u, s, w) p = p
  go_on_keeps (err e, s, w) p = p

  interrupt_keeps : (s : SessionState) (w : W) → P w → P (world_of (interrupt host s w))
  unfolding interrupt
  interrupt_keeps s w p = stop_with_keeps _ _ (commit_state_keeps s _ none w p)

  take_step_keeps :
      (s : SessionState) (step : Step) (w : W) → P w → P (world_of (take_step host s step w))
  unfolding take_step
  take_step_keeps s step w p = go_on_keeps _ (commit_state_keeps s _ _ w p)

  fence_again_keeps :
      (s : SessionState) (step : Step) (w : W) → P w → P (world_of (fence_again host s step w))
  unfolding fence_again
  fence_again_keeps s step w p = elim (Result-cases (call_fence host host.fence w).0) [
    | inl (u, e) ↦ rw (e, fence_again) (take_step_keeps s step _ (k.on_fence w p))
    | inr (x, e) ↦ rw (e, fence_again) (k.on_fence w p)
  ]

  delay_step_keeps :
      (s : SessionState) (step : Step) (w : W) → P w → P (world_of (delay_step host s step w))
  unfolding delay_step
  delay_step_keeps s step w p = elim (Bool-cases (host.sleep w).0) [
    | inl e ↦ rw (e, delay_step) (interrupt_keeps s _ (k.on_sleep w p))
    | inr e ↦ rw (e, delay_step) (fence_again_keeps s step _ (k.on_sleep w p))
  ]

  attempt_step_keeps :
      (fail_at : ℕ) (s : SessionState) (step : Step) (w : W)
      → P w
      → P (world_of (attempt_step host fail_at s step w))
  unfolding attempt_step agent_error exhaust
  attempt_step_keeps fail_at s step w p =
      elim (Bool-cases (ltb 0 fail_at && s.next_step + 1 == fail_at)) [
        | inl f ↦ rw f (stop_with_keeps _ _ (commit_state_keeps s _ none w p))
        | inr f ↦ rw f (elim (Bool-cases (ltb s.tokens_remaining step.token_cost)) [
          | inl c ↦ rw c (stop_with_keeps _ _ (commit_state_keeps s _ none w p))
          | inr c ↦ rw c (elim (Bool-cases host.no_delay) [
            | inl d ↦ simp d (take_step_keeps s step w p)
            | inr d ↦ simp d (delay_step_keeps s step w p)
          ])
        ])
      ]

  loop_body_keeps :
      (fail_at : ℕ) (s : SessionState) (step : Step) (w : W)
      → P w
      → P (world_of (loop_body host fail_at s step w))
  unfolding loop_body fenced_step
  loop_body_keeps fail_at s step w p = elim (Bool-cases (host.canceled w).0) [
    | inl e ↦ rw (e, loop_body) (interrupt_keeps s _ (k.on_canceled w p))
    | inr e ↦
        rw (e, loop_body)
          (elim (Result-cases (call_fence host host.fence (host.canceled w).1).0) [
            | inl (u, g) ↦
                rw (g, fenced_step)
                  (attempt_step_keeps fail_at s step _ (k.on_fence _ (k.on_canceled w p)))
            | inr (x, g) ↦ rw (g, fenced_step) (k.on_fence _ (k.on_canceled w p))
          ])
  ]

  pub round_keeps :
      (fail_at : ℕ) (s : SessionState) (w : W) → P w → P (world_of (round host fail_at s w))
  unfolding round complete
  round_keeps fail_at s w p = elim (Option-cases (get_elem? s.steps s.next_step)) [
    | inl e ↦ rw (e, round) (stop_with_keeps _ _ (commit_state_keeps s _ _ w p))
    | inr (step, e) ↦ rw (e, round) (loop_body_keeps fail_at s step w p)
  ]

  run_loop_keeps :
      (fuel fail_at : ℕ) (s : SessionState) (w : W) → P w → Left P (run_loop host fuel fail_at s w)
  unfolding run_loop
  run_loop_keeps zero fail_at s w p = tt
  run_loop_keeps (suc fuel) fail_at s w p =
      next (round host fail_at s w) (round_keeps fail_at s w p)
        (λ s' w' q. run_loop_keeps fuel fail_at s' w' q)
    where
      next :
          (r : Round W)
          → P (world_of r)
          → ((s' : SessionState) (w' : W) → P w' → Left P (run_loop host fuel fail_at s' w'))
          → Left P (elim r as (λ _. Option (Fallible Outcome × SessionState × W)) [
            | stop r' s' w' ↦ some (r', s', w')
            | again s' w' ↦ run_loop host fuel fail_at s' w'
          ])
      next (stop r s' w') q more = q
      next (again s' w') q more = more s' w' q

  pub run_fenced_keeps : (s : SessionState) (w : W) → P w → Left P (run_fenced host s w)
  unfolding run_fenced run
  run_fenced_keeps s w p = elim (Bool-cases (is_some host.fence)) [
    | inr e ↦ rw e p
    | inl e ↦ rw e (elim (Bool-cases (is_some host.commit)) [
      | inr f ↦ rw f p
      | inl f ↦ rw f (run_loop_keeps _ s.errored_at s w p)
    ])
  ]
