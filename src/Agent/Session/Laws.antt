-- ===== src/Agent/Session/Laws.antt =====
-- When the checkpoint of a session can be read off, and what it holds.
use agent_inbox_question.Base.{
  ℕ, zero, suc, ◌+◌, ◌-◌, ◌≤◌, ◌≡◌, refl, String, some, List, [], ◌∷◌, length, get_elem?-some,
  Bool-cases, inl, inr, ltb, ok, arith, str_eq, if◌then◌else◌,
}
use agent_inbox_question.Agent.Plan.{Step}
use agent_inbox_question.Agent.Session.{
  SessionState, AttemptCheckpoint, outputs, attempt_checkpoint,
}

outputs_in_range :
    (steps : List Step) (i count : ℕ)
    → i + count ≤ length steps
    → (lines : List String) × (outputs steps i count ≡ some lines)
unfolding outputs
outputs_in_range steps i zero h = ([], refl)
outputs_in_range steps i (suc count) h =
    let (s, e) = get_elem?-some steps i (omega arith) in
    let (lines, f) = outputs_in_range steps (suc i) count (omega arith) in
    (if str_eq s.output "" then lines else s.output ∷ lines, rw (e, f, outputs) refl)

-- A session whose next step lies within its plan, and no earlier than its attempt's first one, has a
-- checkpoint, with the session's run, owner token, next step, halt reason and window origin.
pub attempt_checkpoint_total :
    (s : SessionState)
    → s.attempt_start_step ≤ s.next_step
    → s.next_step ≤ length s.steps
    → (c : AttemptCheckpoint) × (attempt_checkpoint s ≡ ok c)
      × (c.run_id ≡ s.attempt_run_id)
      × (c.owner_token ≡ s.attempt_owner_token)
      × (c.completed_steps ≡ s.next_step)
      × (c.halt_reason ≡ s.attempt_halt_reason)
      × (c.window_origin ≡ s.attempt_window_origin)
unfolding attempt_checkpoint
attempt_checkpoint_total s a b =
    let (lines, e) =
      outputs_in_range s.steps s.attempt_start_step (s.next_step - s.attempt_start_step)
        (omega arith) in
    elim (Bool-cases (ltb (s.next_step + 1) s.attempt_start_step)) [
      | inl c ↦ absurd (ground arith)
      | inr c ↦ rw (c, e) (_, refl, refl, refl, refl, refl, refl)
    ]
