-- ===== src/Runner/Attempt/Calm.antt =====
-- Surroundings that disturb no attempt, and the tables while it holds its lease.
pub mod Quiet
use agent_inbox_question.Base.{
  ℕ, ◌+◌, ◌≤◌, ◌≡◌, refl, ◌∙◌, ap, subst, Bool, true, false, ◌&&◌, some, ok, arith, ◌==◌, str_eq,
  Duration, is_positive,
}
use agent_inbox_question.Domain.Status.{is_running}
use agent_inbox_question.Store.Table.{
  count_where, update_where, count_where-keep, count_where_moved, count_where_mono,
}
use agent_inbox_question.Store.Database.{Db, Run, TaskRow, SqlCall, lease_live}
use agent_inbox_question.Store.Progress.{
  AttemptProgress, publish, renewed, owns, update_progress, renew_lease,
}
use agent_inbox_question.Store.Finish.{in_progress_task}
use agent_inbox_question.Runner.Resume.{lease_or_default}
use agent_inbox_question.Runner.World.{Env}

-- The row of the run, running for the task and under its token, with a lease that is live at the
-- moment.
abbrev pub holds : Env → Run → ℕ → ℕ → Run → Bool
holds env run task_id m r =
    r.id == run.id
    && r.task_id == task_id
    && is_running r.status
    && (str_eq r.owner_token run.owner_token
        && lease_live env.dates (env.sql_now m) r.lease_expires_at)

-- No call fails, the context lives, the ticker of the renewals fires in front of every operation,
-- a lease lasts two operations longer, and the other processes spare the rows of the run and of its
-- task.
pub record IsCalm (env : Env) (run : Run) (task_id : ℕ) : Type 0 where
  pub no_faults : (m : ℕ) (c : SqlCall) → env.fails m c ≡ false
  pub goes_on : (m : ℕ) → env.done m ≡ false
  pub ticks : (m : ℕ) → env.renews m ≡ true
  pub written : (m : ℕ) → env.files m ≡ ok tt
  pub printed : (m : ℕ) → env.prints m ≡ true
  pub lasts :
      (m k : ℕ)
      → k ≤ 2
      → lease_live env.dates
          (env.sql_now (m + k))
          (some (env.dates.time_after (env.sql_now m) (lease_or_default env.lease_duration)))
        ≡ true
  pub spares_run :
      (m : ℕ) (db : Db) (p : Run → Bool)
      → ((r : Run) → p r ≡ true → r.id ≡ run.id)
      → count_where p (env.others m db).runs ≡ count_where p db.runs
  pub spares_task :
      (m : ℕ) (db : Db) (p : TaskRow → Bool)
      → ((k : TaskRow) → p k ≡ true → k.id ≡ task_id)
      → count_where p (env.others m db).tasks ≡ count_where p db.tasks

-- The tables of an attempt that holds its lease at a moment.
pub record IsOwned (env : Env) (run : Run) (task_id : ℕ) (db : Db) (m : ℕ) : Type 0 where
  pub unique : count_where (λ r. r.id == run.id) db.runs ≡ 1
  pub held : count_where (holds env run task_id m) db.runs ≡ 1
  pub claimed : count_where (in_progress_task task_id) db.tasks ≡ 1

module _ (env : Env) (run : Run) (task_id : ℕ) (calm : IsCalm env run task_id) where
  abbrev pub Owned : Db → ℕ → Type 0
  Owned db m = IsOwned env run task_id db m

  pub at_moment : (db : Db) (i j : ℕ) → i ≡ j → Owned db i → Owned db j
  at_moment db i j e v = subst (Owned db) e v

  pub others-Owned : (j : ℕ) (db : Db) (m : ℕ) → Owned db m → Owned (env.others j db) m
  others-Owned j db m v = record {
    unique = calm.spares_run j db _ (λ r h. ground (arith, h)) ∙ v.unique;
    held = calm.spares_run j db _ (λ r h. ground (arith, h)) ∙ v.held;
    claimed = calm.spares_task j db _ (λ k h. ground (arith, h)) ∙ v.claimed;
  }

  -- The run owns its lease.
  owns-one :
      (db : Db) (m : ℕ)
      → Owned db m
      → count_where (owns env.dates (env.sql_now m) run.id run.owner_token) db.runs ≡ 1
  unfolding owns
  owns-one db m v =
      let below =
        count_where_mono (owns env.dates (env.sql_now m) run.id run.owner_token)
          (holds env run task_id m) (λ r h. ground (arith, h)) db.runs in
      let above =
        count_where_mono (λ r. r.id == run.id)
          (owns env.dates (env.sql_now m) run.id run.owner_token) (λ r h. ground (arith, h))
          db.runs in
      omega (arith, below, above, v.unique, v.held)

  lease_positive : (d : Duration) → is_positive (lease_or_default d) ≡ true
  lease_positive d = ground arith

  -- After an UPDATE of rows that are owned, from a moment at which the lease is held.
  held_after :
      (db : Db) (m j : ℕ) (f : Run → Run)
      → Owned db m
      → ((r : Run) → (f r).id ≡ r.id)
      → ((r : Run) → holds env run task_id m r ≡ true → holds env run task_id j (f r) ≡ true)
      → Owned
          (record db {
            runs = update_where (owns env.dates (env.sql_now m) run.id run.owner_token) f db.runs;
          })
          j
  unfolding owns
  held_after db m j f v same still =
      let p = owns env.dates (env.sql_now m) run.id run.owner_token in
      let u =
        count_where-keep (λ r. r.id == run.id) p f (λ r h. ap (λ (i : ℕ). i == run.id) (same r))
          db.runs in
      let moved =
        count_where_moved (holds env run task_id j) p (holds env run task_id m) f
          (λ r h. (ground (arith, h), still r h)) db.runs in
      let above =
        count_where_mono (λ r. r.id == run.id) (holds env run task_id j) (λ r h. ground (arith, h))
          (update_where p f db.runs) in
      record {
        unique = u ∙ v.unique;
        held = omega (arith, u, moved, above, v.unique, v.held);
        claimed = v.claimed;
      }

  pub renewal_calm :
      (db : Db) (m : ℕ)
      → Owned db m
      → let x =
          renew_lease env.dates
            (env.sql_now m)
            (env.fails m)
            run.id
            run.owner_token
            (lease_or_default env.lease_duration)
            db in
        (x.1 ≡ ok tt) × ((k : ℕ) → k ≤ 2 → Owned x.0 (m + k))
  unfolding renew_lease
  renewal_calm db m v =
      let at = env.dates.time_after (env.sql_now m) (lease_or_default env.lease_duration) in
      rw
        (
          lease_positive env.lease_duration,
          calm.no_faults m SqlCall.first_exec,
          calm.no_faults m SqlCall.first_count,
          owns-one db m v,
        )
        (
          refl,
          λ k h.
              held_after db m (m + k) (renewed at) v (λ r. refl)
                (λ r q. ground (arith, q, calm.lasts m k h)),
        )

  publish-Owned :
      (db : Db) (j : ℕ) (p : Run → Bool) (progress : AttemptProgress)
      → Owned db j
      → Owned (record db { runs = update_where p (publish progress) db.runs }) j
  publish-Owned db j p progress v = record {
    unique =
        count_where-keep (λ r. r.id == run.id) p (publish progress) (λ r h. refl) db.runs
        ∙ v.unique;
    held =
        count_where-keep (holds env run task_id j) p (publish progress) (λ r h. refl) db.runs
        ∙ v.held;
    claimed = v.claimed;
  }

  pub progress_calm :
      (db : Db) (m : ℕ) (progress : AttemptProgress)
      → progress.run_id ≡ run.id
      → progress.owner_token ≡ run.owner_token
      → Owned db m
      → let x = update_progress env.dates (env.sql_now m) (env.fails m) progress db in
        (x.1 ≡ ok tt) × ((j : ℕ) → Owned db j → Owned x.0 j)
  unfolding update_progress
  progress_calm db m progress i o v =
      rw
        (
          i,
          o,
          calm.no_faults m SqlCall.first_exec,
          calm.no_faults m SqlCall.first_count,
          owns-one db m v,
        )
        (refl, λ j u. publish-Owned db j _ progress u)
