-- ===== src/Runner/Launch/Alone.antt =====
-- A process that is alone and that nothing disturbs, and the run that it starts for a task.
use agent_inbox_question.Base.{
  ℕ, suc, ◌+◌, ◌≤◌, ◌≡◌, refl, true, false, some, is_some, ok, arith, ◌==◌, String, Time, Duration,
  add_time, is_positive,
}
use agent_inbox_question.Domain.Status.{TaskStatus}
use agent_inbox_question.Domain.Transition.{transition}
use text.Mathlib.TextEquality.{eq_iff}
use agent_inbox_question.Agent.Session.{SessionState}
use agent_inbox_question.Store.Table.{
  count_where, update_where, find_where, find_where_counts, find_where_fits, count_where_moved,
  count_where_mono, count_where-keep, count_key_above, count_key-le-one,
}
use agent_inbox_question.Store.Database.{Db, Run, TaskRow, SqlCall, lease_live, runs_of, at_rest}
use agent_inbox_question.Store.Invariant.{IsConsistent, task_key, run_key}
use agent_inbox_question.Store.Finish.{in_progress_task}
use agent_inbox_question.Store.Start.{
  StartAuthorization, StartAttemptParams, claims, claimed_task, started_run, insert_run, start_tx,
  start_time, start_with_token, start_checked, start_authorized, start_owned_attempt,
  continuation_predicate, predecessor_predicate,
}
use agent_inbox_question.Store.Start.Laws.{started_db}
use agent_inbox_question.Store.Tasks.{Task, scan_task}
use agent_inbox_question.Runner.Resume.{lease_or_default, start_params, start_claim, start_attempt}
use agent_inbox_question.Runner.World.{Env}
use agent_inbox_question.Runner.Attempt.Calm.{IsCalm, IsOwned, holds}
use agent_inbox_question.Runner.Launch.{fresh_expectation}

-- The process is alone and no call fails, the context lives, ids and tokens are given, the ticker of
-- the renewals fires in front of every operation, a lease lasts two operations longer, and the first
-- one four.
pub record IsAlone (env : Env) : Type 0 where
  pub alone : (m : ℕ) (db : Db) → env.others m db ≡ db
  pub no_faults : (m : ℕ) (c : SqlCall) → env.fails m c ≡ false
  pub goes_on : (m : ℕ) → env.done m ≡ false
  pub ticks : (m : ℕ) → env.renews m ≡ true
  pub written : (m : ℕ) → env.files m ≡ ok tt
  pub printed : (m : ℕ) → env.prints m ≡ true
  pub named : (m : ℕ) → is_some (env.ids m) ≡ true
  pub owned : (m : ℕ) → is_some (env.tokens m) ≡ true
  pub lasts :
      (m k : ℕ)
      → k ≤ 2
      → lease_live env.dates
          (env.sql_now (m + k))
          (some (env.dates.time_after (env.sql_now m) (lease_or_default env.lease_duration)))
        ≡ true
  pub begins :
      (m k : ℕ)
      → k ≤ 4
      → lease_live env.dates
          (env.sql_now (m + k))
          (some (add_time (env.clock m) (lease_or_default env.lease_duration)))
        ≡ true

pub IsAlone-IsCalm : (env : Env) (run : Run) (task_id : ℕ) → IsAlone env → IsCalm env run task_id
IsAlone-IsCalm env run task_id v = record {
  no_faults = v.no_faults;
  goes_on = v.goes_on;
  ticks = v.ticks;
  written = v.written;
  printed = v.printed;
  lasts = v.lasts;
  spares_run = λ m db p h. rw (v.alone m db) refl;
  spares_task = λ m db p h. rw (v.alone m db) refl;
}

-- The tables hold a row of the task, which is scanned as a task that waits, and no run of it.
pub record IsWaiting (task_id : ℕ) (task : Task) (db : Db) : Type 0 where
  pub row : TaskRow
  pub found : find_where (λ k. k.id == task_id) db.tasks ≡ some row
  pub scanned : scan_task row ≡ ok task
  pub todo : task.status ≡ TaskStatus.todo
  pub unstarted : count_where (runs_of task_id) db.runs ≡ 0

module _ (env : Env) (task_id : ℕ) (alone : IsAlone env) where
  lease_is_positive : (d : Duration) → is_positive (lease_or_default d) ≡ true
  lease_is_positive d = ground arith

  start_time-same : (c : Time) → start_time c c ≡ c
  start_time-same c = ground arith

  module _ (s : SessionState) (db : Db) (task : Task) (consistent : IsConsistent db)
      (waiting : IsWaiting task_id task db) (m : ℕ) (token : String) where
    abbrev pub first_params : StartAttemptParams
    first_params = start_params (fresh_expectation env task_id) s env.lease_duration (env.clock m)

    abbrev pub first_run : Run
    first_run = started_run first_params (env.clock m) token (suc db.run_seq)

    abbrev pub first_db : Db
    first_db =
        started_db env.dates StartAuthorization.owner_start first_params (env.clock m) token db

    row_todo : waiting.row.status ≡ TaskStatus.todo
    unfolding scan_task
    row_todo = let e = waiting.scanned in let t = waiting.todo in ground (arith, e, t)

    claims_row :
        claims env.dates
          (env.clock m)
          StartAuthorization.owner_start
          first_params
          db.runs
          waiting.row
        ≡ true
    unfolding claims continuation_predicate predecessor_predicate
    claims_row =
        rw
          (
            find_where_fits (λ k. k.id == task_id) waiting.row db.tasks waiting.found,
            row_todo,
            waiting.unstarted,
          )
          refl

    claims_one :
        count_where
          (claims env.dates (env.clock m) StartAuthorization.owner_start first_params db.runs)
          db.tasks
        ≡ 1
    unfolding claims continuation_predicate predecessor_predicate
    claims_one =
        let fits =
          claims env.dates (env.clock m) StartAuthorization.owner_start first_params db.runs in
        let above =
          count_where_mono (λ k. k.id == task_id) fits (λ k h. ground (arith, h)) db.tasks in
        let one =
          count_key-le-one task_key task_id (suc db.task_seq) db.tasks consistent.tasks_fresh in
        let below =
          find_where_counts (λ k. k.id == task_id) fits waiting.row claims_row db.tasks
            waiting.found in
        omega (arith, above, one, below)

    pub start_calm :
        (faults : (c : SqlCall) → env.fails m c ≡ false)
        → start_attempt env.dates
            (env.fails m)
            (env.clock m)
            (some token)
            env.lease_duration
            s
            (fresh_expectation env task_id)
            db
          ≡ (at_rest first_db, ok first_run)
    unfolding start_attempt start_claim start_owned_attempt start_authorized start_checked
        start_with_token start_tx insert_run transition update_where
    start_calm faults =
        rw
          (
            lease_is_positive env.lease_duration,
            faults SqlCall.begin_tx,
            faults SqlCall.first_exec,
            faults SqlCall.first_count,
            start_time-same (env.clock m),
            claims_one,
            faults SqlCall.insert,
            faults SqlCall.last_id,
            faults SqlCall.commit_tx,
          )
          refl

    first_one : count_where (λ r. r.id == suc db.run_seq) first_db.runs ≡ 1
    unfolding count_where
    first_one =
        let none_yet =
          count_key_above run_key (suc db.run_seq) (suc db.run_seq) db.runs consistent.runs_fresh
            (omega arith) in
        ground (arith, none_yet)

    first_holds :
        (j : ℕ)
        → lease_live env.dates
            (env.sql_now j)
            (some (add_time (env.clock m) (lease_or_default env.lease_duration)))
          ≡ true
        → holds env first_run task_id j first_run ≡ true
    first_holds j live = ground (arith, live, (eq_iff token token).1 refl)

    first_held :
        (j : ℕ)
        → holds env first_run task_id j first_run ≡ true
        → count_where (holds env first_run task_id j) first_db.runs ≡ 1
    unfolding count_where
    first_held j h =
        let above =
          count_where_mono (λ r. r.id == suc db.run_seq) (holds env first_run task_id j)
            (λ r q. ground (arith, q)) db.runs in
        let none_yet =
          count_key_above run_key (suc db.run_seq) (suc db.run_seq) db.runs consistent.runs_fresh
            (omega arith) in
        rw h (omega (arith, above, none_yet))

    first_claimed : count_where (in_progress_task task_id) first_db.tasks ≡ 1
    unfolding claims
    first_claimed =
        let fits =
          claims env.dates (env.clock m) StartAuthorization.owner_start first_params db.runs in
        let f = claimed_task (env.clock m) in
        let moved =
          count_where_moved (in_progress_task task_id) fits fits f (λ k h. (h, ground (arith, h)))
            db.tasks in
        let above =
          count_where_mono (λ k. k.id == task_id) (in_progress_task task_id)
            (λ k h. ground (arith, h)) (update_where fits f db.tasks) in
        let same = count_where-keep (λ k. k.id == task_id) fits f (λ k h. refl) db.tasks in
        let one =
          count_key-le-one task_key task_id (suc db.task_seq) db.tasks consistent.tasks_fresh in
        omega (arith, moved, above, same, one, claims_one)

    pub first-IsOwned :
        (j : ℕ)
        → lease_live env.dates
            (env.sql_now j)
            (some (add_time (env.clock m) (lease_or_default env.lease_duration)))
          ≡ true
        → IsOwned env first_run task_id first_db j
    first-IsOwned j live = record {
      unique = first_one;
      held = first_held j (first_holds j live);
      claimed = first_claimed;
    }
