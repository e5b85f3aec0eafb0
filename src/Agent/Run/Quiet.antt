-- ===== src/Agent/Run/Quiet.antt =====
-- A host that disturbs nothing: a round of the loop goes on, or completes.
use agent_inbox_question.Base.{
  ◌≤◌, ◌≡◌, refl, Bool, true, false, Option, ok, err, is_some, arith, inl, inr, ltb, Bool-cases,
}
use agent_inbox_question.Domain.Errors.{Fallible}
use agent_inbox_question.Agent.Plan.{Step}
use agent_inbox_question.Agent.Session.{SessionState}
use agent_inbox_question.Agent.Commit.{
  Event, Host, StateCommit, call_commit, full_commit, commit_then_persist, persist_then_commit,
  commit_state,
}
use agent_inbox_question.Agent.Run.Surroundings.{Keeps, stamp_keeps}
use agent_inbox_question.Agent.Run.{
  OutcomeKind, Outcome, Round, stop, again, call_fence, take_step, fence_again, delay_step,
  attempt_step, fenced_step, loop_body, complete, go_on, stop_with,
}

-- A host that never cancels, refuses or fails.
pub record IsQuiet {W : Type 0} (host : Host W) : Type 0 where
  pub goes_on : (w : W) → (host.canceled w).0 ≡ false
  pub sleeps : (w : W) → (host.sleep w).0 ≡ false
  pub fences : (w : W) → (call_fence host host.fence w).0 ≡ ok tt
  pub commits : (c : StateCommit) (w : W) → (call_commit host host.commit c w).0 ≡ ok tt
  pub persists : (s : SessionState) (w : W) → (host.persist s w).0 ≡ ok tt

-- The same as long as what its operations keep of the world holds.
pub record IsQuietWhile {W : Type 0} (P : W → Type 0) (host : Host W) : Type 0 where
  pub keeps : Keeps P host
  pub goes_on : (w : W) → P w → (host.canceled w).0 ≡ false
  pub sleeps : (w : W) → P w → (host.sleep w).0 ≡ false
  pub fences : (w : W) → P w → (call_fence host host.fence w).0 ≡ ok tt
  pub commits : (c : StateCommit) (w : W) → P w → (call_commit host host.commit c w).0 ≡ ok tt
  pub persists : (s : SessionState) (w : W) → P w → (host.persist s w).0 ≡ ok tt

pub IsQuiet-IsQuietWhile :
    {W : Type 0} (host : Host W) → IsQuiet host → IsQuietWhile (λ w. Unit {0}) host
IsQuiet-IsQuietWhile host quiet = record {
  keeps = record {
    on_canceled = λ w p. tt;
    on_sleep = λ w p. tt;
    on_fence = λ w p. tt;
    on_commit = λ c w p. tt;
    on_persist = λ s w p. tt;
    on_now = λ w p. tt;
  };
  goes_on = λ w p. quiet.goes_on w;
  sleeps = λ w p. quiet.sleeps w;
  fences = λ w p. quiet.fences w;
  commits = λ c w p. quiet.commits c w;
  persists = λ s w p. quiet.persists s w;
}

abbrev pub is_completed_kind : OutcomeKind → Bool
is_completed_kind OutcomeKind.completed = true
is_completed_kind _ = false

abbrev pub is_completed_result : Fallible Outcome → Bool
is_completed_result (ok o) = is_completed_kind o.kind
is_completed_result (err e) = false

module _ {W : Type 0} (P : W → Type 0) (host : Host W) (quiet : IsQuietWhile P host) where
  quiet_commit_ok :
      (previous s : SessionState) (event : Option Event) (w : W)
      → P w
      → (commit_then_persist host previous s event w).0 ≡ ok tt
  unfolding commit_then_persist
  quiet_commit_ok previous s event w p =
      rw (quiet.commits (full_commit host s event) w p, commit_then_persist)
        (quiet.persists s _ (quiet.keeps.on_commit _ w p))

  quiet_persist_ok :
      (s : SessionState) (event : Option Event) (w : W)
      → P w
      → (persist_then_commit host s event w).0 ≡ ok tt
  unfolding persist_then_commit
  quiet_persist_ok s event w p =
      rw (quiet.persists s w p, persist_then_commit)
        (quiet.commits (full_commit host s event) _ (quiet.keeps.on_persist s w p))

  commit_ok :
      (previous s : SessionState) (event : Option Event) (w : W)
      → P w
      → (commit_state host previous s event w).0 ≡ ok tt
  unfolding commit_state
  commit_ok previous s event w p = elim (Bool-cases (is_some host.fence)) [
    | inl f ↦ rw f (quiet_commit_ok _ _ _ _ (stamp_keeps P host quiet.keeps s w p))
    | inr f ↦ rw f (quiet_persist_ok _ _ _ (stamp_keeps P host quiet.keeps s w p))
  ]

  abbrev pub continues : Round W → Bool
  continues (stop r s w) = false
  continues (again s w) = true

  abbrev pub completes : Round W → Bool
  completes (stop (ok o) s w) = is_completed_kind o.kind
  completes _ = false

  go_on-continues :
      (x : Fallible (Unit {0}) × SessionState × W) → x.0 ≡ ok tt → continues (go_on host x) ≡ true
  go_on-continues (ok u, s, w) e = refl
  go_on-continues (err b, s, w) e = cc

  stop_with-completes :
      (o : Outcome) (x : Fallible (Unit {0}) × SessionState × W)
      → is_completed_kind o.kind ≡ true
      → x.0 ≡ ok tt
      → completes (stop_with host o x) ≡ true
  stop_with-completes o (ok u, s, w) k e = k
  stop_with-completes o (err b, s, w) k e = cc

  module _ (s : SessionState) (step : Step) (fits : step.token_cost ≤ s.tokens_remaining) where
    take_step-continues : (w : W) → P w → continues (take_step host s step w) ≡ true
    unfolding take_step
    take_step-continues w p = go_on-continues _ (commit_ok s _ _ w p)

    delay_step-continues : (w : W) → P w → continues (delay_step host s step w) ≡ true
    unfolding delay_step fence_again
    delay_step-continues w p =
        let q = quiet.keeps.on_sleep w p in
        rw (quiet.sleeps w p, delay_step)
          (rw (quiet.fences (host.sleep w).1 q, fence_again)
            (take_step-continues _ (quiet.keeps.on_fence _ q)))

    attempt_step-continues : (w : W) → P w → continues (attempt_step host 0 s step w) ≡ true
    unfolding attempt_step
    attempt_step-continues w p = elim (Bool-cases (ltb s.tokens_remaining step.token_cost)) [
      | inl c ↦ absurd (ground arith)
      | inr c ↦ rw c (elim (Bool-cases host.no_delay) [
        | inl d ↦ simp d (take_step-continues w p)
        | inr d ↦ simp d (delay_step-continues w p)
      ])
    ]

    pub loop_body-continues : (w : W) → P w → continues (loop_body host 0 s step w) ≡ true
    unfolding loop_body fenced_step
    loop_body-continues w p =
        let q = quiet.keeps.on_canceled w p in
        rw (quiet.goes_on w p, loop_body)
          (rw (quiet.fences (host.canceled w).1 q, fenced_step)
            (attempt_step-continues _ (quiet.keeps.on_fence _ q)))

  pub complete-completes : (s : SessionState) (w : W) → P w → completes (complete host s w) ≡ true
  unfolding complete
  complete-completes s w p = stop_with-completes _ _ refl (commit_ok s _ _ w p)
