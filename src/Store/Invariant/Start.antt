-- ===== src/Store/Invariant/Start.antt =====
-- A claim keeps the tables consistent, and a claimed task cannot be claimed again.
use agent_inbox_question.Base.{
  ℕ, suc, ◌+◌, ◌≤◌, ◌≡◌, refl, true, false, Bool-cases, Time, inl, inr, ok, ◌==◌, arith, ==_iff,
  String, Option, Result-cases, pair_eq, is_ok, List, ◌∷◌,
}
use agent_inbox_question.Domain.Status.{TaskStatus}
use agent_inbox_question.Domain.Transition.{transition}
use agent_inbox_question.Store.Table.{
  count_where, count_where-keep, count_where-gain, count_where-disjoint, update_where-Below,
  count_key-le-one,
}
use agent_inbox_question.Store.Database.{
  Db, Run, TaskRow, runs_for, claims_for, is_in_progress, SqlDates, Faults,
}
use agent_inbox_question.Store.Start.{
  StartAttemptParams, StartAuthorization, claims, claimed_task, started_run, start_authorized,
  start_time,
}
use agent_inbox_question.Store.Start.Laws.{started_db, start_ok, start_error}
use agent_inbox_question.Store.Invariant.{IsConsistent, task_key}

module _ (dates : SqlDates) (authorization : StartAuthorization) (params : StartAttemptParams)
    (allowed : transition params.expected_status TaskStatus.in_progress ≡ ok tt) where
  -- The row that a claim fits is the task's, and is not in progress.
  claims_parts :
      (at : Time) (runs : List Run) (k : TaskRow)
      → claims dates at authorization params runs k ≡ true
      → ((k.id == params.task_id) ≡ true) × (is_in_progress k.status ≡ false)
  unfolding claims transition
  claims_parts at runs k h = ground arith

  joins :
      (at : Time) (runs : List Run) (t : ℕ)
      → (params.task_id == t) ≡ true
      → (k : TaskRow) → claims dates at authorization params runs k ≡ true
      → (claims_for t k ≡ false) × (claims_for t (claimed_task at k) ≡ true)
  joins at runs t e k h = ground (arith, claims_parts at runs k h)

  stays_out :
      (at : Time) (runs : List Run) (t : ℕ)
      → (params.task_id == t) ≡ false
      → (k : TaskRow) → claims dates at authorization params runs k ≡ true
      → claims_for t (claimed_task at k) ≡ claims_for t k
  stays_out at runs t e k h = ground (arith, claims_parts at runs k h)

  new_run_same :
      (at : Time) (token : String) (id t : ℕ) (runs : List Run)
      → (params.task_id == t) ≡ true
      → count_where (runs_for t) (started_run params at token id ∷ runs)
        ≡ count_where (runs_for t) runs + 1
  unfolding count_where
  new_run_same at token id t runs e = ground arith

  new_run_other :
      (at : Time) (token : String) (id t : ℕ) (runs : List Run)
      → (params.task_id == t) ≡ false
      → count_where (runs_for t) (started_run params at token id ∷ runs)
        ≡ count_where (runs_for t) runs
  unfolding count_where
  new_run_other at token id t runs e = ground arith

  started-Consistent :
      (at : Time) (token : String) (db : Db)
      → count_where (claims dates at authorization params db.runs) db.tasks ≡ 1
      → IsConsistent db
      → IsConsistent (started_db dates authorization params at token db)
  started-Consistent at token db n c = record {
    tasks_fresh =
        update_where-Below task_key (claims dates at authorization params db.runs) (claimed_task at)
          (λ x. refl) _ db.tasks c.tasks_fresh;
    runs_fresh = (omega arith, c.runs_fresh);
    owned = λ t. elim (Bool-cases (params.task_id == t)) [
      | inl e ↦ omega (
        arith,
        c.owned t,
        n,
        new_run_same at token (suc db.run_seq) t db.runs e,
        count_where-gain (claims_for t) (claims dates at authorization params db.runs)
            (claimed_task at) (joins at db.runs t e) db.tasks,
      )
      | inr e ↦ omega (
        arith,
        c.owned t,
        new_run_other at token (suc db.run_seq) t db.runs e,
        count_where-keep (claims_for t) (claims dates at authorization params db.runs)
            (claimed_task at) (stays_out at db.runs t e) db.tasks,
      )
    ];
  }

module _ (dates : SqlDates) (fails : Faults) (clock : Time) (token : Option String)
    (authorization : StartAuthorization) (params : StartAttemptParams) (db : Db)
    (c : IsConsistent db) where
  -- A start keeps the committed tables consistent, with success or error, under any authorization.
  pub start_authorized-IsConsistent :
      IsConsistent (start_authorized dates fails clock token authorization params db).0.committed
  start_authorized-IsConsistent =
      elim (Result-cases (start_authorized dates fails clock token authorization params db).1) [
        | inl (run, e) ↦
            let (allowed, _, n, (s, _, f)) =
              start_ok dates fails authorization params db clock token (pair_eq _ refl e) in
            rw f (started-Consistent dates authorization params allowed _ s db n c)
        | inr (x, e) ↦
            rw (start_error dates fails authorization params db clock token (pair_eq _ refl e)) c
      ]

  -- A task that is in progress cannot be claimed.
  pub start_claimed :
      1 ≤ count_where (claims_for params.task_id) db.tasks
      → is_ok (start_authorized dates fails clock token authorization params db).1 ≡ false
  start_claimed busy =
      elim (Result-cases (start_authorized dates fails clock token authorization params db).1) [
        | inl (run, e) ↦
            let (allowed, _, n, _) =
              start_ok dates fails authorization params db clock token (pair_eq _ refl e) in
            absurd (
              omega (
                arith,
                n,
                count_key-le-one task_key params.task_id (suc db.task_seq) db.tasks c.tasks_fresh,
                count_where-disjoint (λ k. task_key k == params.task_id)
                    (claims dates (start_time clock params.started_at) authorization params db.runs)
                    (claims_for params.task_id)
                    (λ k h.
                      ground (arith, claims_parts dates authorization params allowed _ db.runs k h))
                    (λ k h. ground arith) db.tasks,
              ))
        | inr (x, e) ↦ rw e
      ]

-- A claim leaves its task in progress.
pub start_claims :
    (dates : SqlDates) (fails : Faults) (clock : Time) (token : Option String)
    (authorization : StartAuthorization) (params : StartAttemptParams) (db : Db)
    → IsConsistent db
    → (run : Run) → (start_authorized dates fails clock token authorization params db).1 ≡ ok run
    → 1
      ≤ count_where
          (claims_for params.task_id)
          (start_authorized dates fails clock token authorization params db).0.committed.tasks
start_claims dates fails clock token authorization params db c run won =
    let (allowed, _, n, (s, _, f)) =
      start_ok dates fails authorization params db clock token (pair_eq _ refl won) in
    rw f (
      omega (
        arith,
        n,
        count_where-gain (claims_for params.task_id)
            (claims dates (start_time clock params.started_at) authorization params db.runs)
            (claimed_task (start_time clock params.started_at))
            (joins dates authorization params allowed _ db.runs params.task_id
              ((==_iff params.task_id params.task_id).1 refl))
            db.tasks,
      ))

-- After a claim of a task in consistent tables, each further claim of that task on the tables that it
-- left fails, under any authorization and whatever it expects.
pub start_twice :
    (dates : SqlDates) (fails fails' : Faults) (clock clock' : Time) (token token' : Option String)
    (authorization authorization' : StartAuthorization) (params params' : StartAttemptParams)
    (db : Db) (run : Run)
    → IsConsistent db
    → (start_authorized dates fails clock token authorization params db).1 ≡ ok run
    → params'.task_id ≡ params.task_id
    → let db' = (start_authorized dates fails clock token authorization params db).0.committed in
      is_ok (start_authorized dates fails' clock' token' authorization' params' db').1 ≡ false
start_twice dates fails fails' clock clock' token token' authorization authorization' params params'
      db run c won same =
    start_claimed dates fails' clock' token' authorization' params' _
      (start_authorized-IsConsistent dates fails clock token authorization params db c)
      (rw same (start_claims dates fails clock token authorization params db c run won))
