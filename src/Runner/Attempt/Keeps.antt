-- ===== src/Runner/Attempt/Keeps.antt =====
-- What the worker's own writes and the other processes keep of the tables, an attempt keeps.
use agent_inbox_question.Base.{
  ℕ, ◌≡◌, refl, ok, err, inl, inr, not, is_some, ◌&&◌, Bool-cases, Duration,
}
use agent_inbox_question.Domain.Errors.{Fallible}
use agent_inbox_question.Agent.Session.{SessionState}
use agent_inbox_question.Agent.Commit.{StateCommit}
use agent_inbox_question.Agent.Run.{run_fenced}
use agent_inbox_question.Agent.Run.Surroundings.{Keeps, Left, run_fenced_keeps}
use agent_inbox_question.Store.Database.{Db, Run}
use agent_inbox_question.Store.Progress.{AttemptProgress, update_progress, renew_lease}
use agent_inbox_question.Runner.World.{Env, World, pass}
use agent_inbox_question.Runner.Attempt.{
  Attempt, begun, after_renewal, renew_now, lease_tick, interlude, look, fenced, fence, published,
  sink, attempt_host,
}

-- The others, and the fenced writes of the run, keep `P`.
pub record Safe (env : Env) (run : Run) (P : Db → Type 0) : Type 0 where
  pub by_others : (m : ℕ) (db : Db) → P db → P (env.others m db)
  pub by_renewal :
      (m : ℕ) (d : Duration) (db : Db)
      → P db
      → P (renew_lease env.dates (env.sql_now m) (env.fails m) run.id run.owner_token d db).0
  pub by_progress :
      (m : ℕ) (progress : AttemptProgress) (db : Db)
      → progress.run_id ≡ run.id
      → P db
      → P (update_progress env.dates (env.sql_now m) (env.fails m) progress db).0

module _ (env : Env) (run : Run) (P : Db → Type 0) (safe : Safe env run P) where
  pub pass_keeps : (w : World) → P w.db → P (pass env w).db
  unfolding pass
  pass_keeps w p = safe.by_others w.moment w.db p

  renew_now_keeps : (w : World) → P w.db → P (renew_now env run w).0
  unfolding renew_now
  renew_now_keeps w p = safe.by_renewal w.moment _ w.db p

  after_renewal_keeps :
      (a : Attempt) (r : Db × Fallible (Unit {0})) → P r.0 → P (after_renewal a r).world.db
  after_renewal_keeps a (db, ok u) p = p
  after_renewal_keeps a (db, err e) p = p

  lease_tick_keeps : (a : Attempt) → P a.world.db → P (lease_tick env run a).world.db
  unfolding lease_tick
  lease_tick_keeps a p =
      elim (Bool-cases (env.renews a.world.moment && not (is_some a.renewal_error))) [
        | inl e ↦ rw e (after_renewal_keeps a _ (renew_now_keeps a.world p))
        | inr e ↦ rw e p
      ]

  pub interlude_keeps : (a : Attempt) → P a.world.db → P (interlude env run a).world.db
  unfolding interlude
  interlude_keeps a p = pass_keeps _ (lease_tick_keeps _ (pass_keeps a.world p))

  fenced_keeps :
      (a : Attempt) (r : Db × Fallible (Unit {0})) → P r.0 → P (fenced env run a r).1.world.db
  fenced_keeps a (db, r) p = p

  fence_keeps : (a : Attempt) → P a.world.db → P (fence env run a).1.world.db
  unfolding fence
  fence_keeps a p =
      let b = interlude env run a in
      fenced_keeps b (renew_now env run b.world) (renew_now_keeps b.world (interlude_keeps a p))

  published_keeps :
      (change : StateCommit) (a : Attempt) (r : Db × Fallible (Unit {0}))
      → P r.0
      → P (published env run change a r).1.world.db
  published_keeps change a (db, ok u) p = p
  published_keeps change a (db, err e) p = p

  sink_keeps :
      (change : StateCommit) (a : Attempt) → P a.world.db → P (sink env run change a).1.world.db
  unfolding sink
  sink_keeps change a p = published_keeps change (interlude env run a) _ (
      safe.by_progress (interlude env run a).world.moment _ (interlude env run a).world.db refl
        (interlude_keeps a p))

  attempt_host-Keeps : Keeps (λ a. P a.world.db) (attempt_host env run)
  unfolding attempt_host look
  attempt_host-Keeps = record {
    on_canceled = λ a p. interlude_keeps a p;
    on_sleep = λ a p. interlude_keeps a p;
    on_fence = fence_keeps;
    on_commit = sink_keeps;
    on_persist = λ s a p. interlude_keeps a p;
    on_now = λ a p. p;
  }

  -- At the end of the session's loop.
  pub session_keeps :
      (s : SessionState) (w : World)
      → P w.db
      → Left (λ a. P a.world.db) (run_fenced (attempt_host env run) s (begun w))
  session_keeps s w p =
      run_fenced_keeps (λ a. P a.world.db) (attempt_host env run) attempt_host-Keeps s (begun w) p
