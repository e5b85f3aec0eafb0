-- ===== src/Store/Start/Eligible.antt =====
-- internal/store/attempt_repo.go: what StartAutomaticAttempt and StartInterruptedAttempt ask of the
-- task that they claim.
use mathlib.Core.List.{Memᴰ}
use mathlib.Core.List.Memᴰ.{head, tail}
use agent_inbox_question.Base.{
  ◌≤◌, leb→le, String, Time, Bool, true, false, Option, some, none, List, [], ◌∷◌, ok, ◌≡◌, refl,
  inl, inr, Bool-cases, arith, pair_eq, ◌==◌, ==_iff,
}
use agent_inbox_question.Domain.Status.{
  TaskStatus, ExitReason, same_task_status, is_scheduled, same_exit_reason,
}
use agent_inbox_question.Store.Table.{count_where}
use agent_inbox_question.Store.Database.{TaskRow, Run, Db, SqlDates, Faults, latest_run}
use agent_inbox_question.Store.Start.Claim.{
  StartAttemptParams, StartAuthorization, ended_by, id_is, claims, eligible_not_null, selected,
  predecessor_predicate,
}
use agent_inbox_question.Store.Start.{
  no_failed_run, start_time, start_authorized, start_automatic_attempt, start_interrupted_attempt,
}
use agent_inbox_question.Store.Start.Laws.{start_ok}

-- A row that is counted is there.
counted_row :
    {A : Type 0} (p : A → Bool) (xs : List A)
    → 1 ≤ count_where p xs
    → (x : A) × Memᴰ x xs × (p x ≡ true)
unfolding count_where
counted_row p [] h = absurd (omega (arith, h))
counted_row p (x ∷ xs) h = elim (Bool-cases (p x)) [
  | inl e ↦ (x, head refl, e)
  | inr e ↦ let (y, m, f) = counted_row p xs (ground (arith, h, e)) in (y, tail m, f)
]

-- What selects a task and its run at a time: the task is failed and scheduled, its eligibility is
-- there and over by SQLite's dates, and its latest run has the id of the run, which ended for the
-- reason.
pub record IsSelected (dates : SqlDates) (at : Time) (reason : ExitReason) (runs : List Run)
    (k : TaskRow) (q : Run) : Type 0 where
  pub failed : same_task_status k.status TaskStatus.failed ≡ true
  pub scheduled : is_scheduled k.auto_retry_state ≡ true
  pub next : Time
  pub eligible : k.next_eligible_at ≡ some next
  pub over : dates.julianday next ≤ dates.julianday at
  pub of_task : q.task_id ≡ k.id
  pub latest : id_is q.id (latest_run k.id runs) ≡ true
  pub ended : same_exit_reason q.exit_reason reason ≡ true

eligible_time :
    (dates : SqlDates) (at : Time) (o : Option Time)
    → eligible_not_null dates at o ≡ true
    → (next : Time) × (o ≡ some next) × (dates.julianday next ≤ dates.julianday at)
eligible_time dates at none h = cc
eligible_time dates at (some next) h =
    (next, refl, leb→le (dates.julianday next) (dates.julianday at) h)

module _ (dates : SqlDates) (at : Time) (params : StartAttemptParams) (runs : List Run)
    (f : no_failed_run params ≡ false) where
  selected-IsSelected :
      (reason : ExitReason) (k : TaskRow)
      → selected dates at params reason runs k ≡ true
      → (k.id == params.task_id) ≡ true
      → same_task_status k.status params.expected_status ≡ true
      → predecessor_predicate params runs ≡ true
      → (q : Run) × Memᴰ q runs
        × (q.id ≡ params.expected_run_id)
        × IsSelected dates at reason runs k q
  unfolding predecessor_predicate
  selected-IsSelected reason k s i e p =
      let (q, m, h) = counted_row (ended_by params reason k.id) runs (ground (arith, s)) in
      let (next, o, v) = eligible_time dates at k.next_eligible_at (ground (arith, s)) in
      let g = (==_iff q.id params.expected_run_id).0 (ground (arith, h)) in
      let t = (==_iff k.id params.task_id).0 i in
      (
        q,
        m,
        g,
        record {
          failed = ground (arith, e, f);
          scheduled = ground (arith, s);
          next = next;
          eligible = o;
          over = v;
          of_task = (==_iff q.task_id k.id).0 (ground (arith, h));
          latest = rw (g, t) (ground (arith, p, f));
          ended = ground (arith, h);
        },
      )

  claimed_automatic :
      (k : TaskRow)
      → claims dates at StartAuthorization.automatic_start params runs k ≡ true
      → (k.id ≡ params.task_id)
        × ((q : Run) × Memᴰ q runs
            × (q.id ≡ params.expected_run_id)
            × IsSelected dates at ExitReason.token_budget_exhausted runs k q)
  unfolding claims
  claimed_automatic k h = (
    (==_iff k.id params.task_id).0 (ground (arith, h)),
    selected-IsSelected ExitReason.token_budget_exhausted k (ground (arith, h)) (ground (arith, h))
        (ground (arith, h)) (ground (arith, h)),
  )

  claimed_interrupted :
      (k : TaskRow)
      → claims dates at StartAuthorization.interrupted_start params runs k ≡ true
      → (k.id ≡ params.task_id)
        × ((q : Run) × Memᴰ q runs
            × (q.id ≡ params.expected_run_id)
            × IsSelected dates at ExitReason.interrupted runs k q)
  unfolding claims
  claimed_interrupted k h = (
    (==_iff k.id params.task_id).0 (ground (arith, h)),
    selected-IsSelected ExitReason.interrupted k (ground (arith, h)) (ground (arith, h))
        (ground (arith, h)) (ground (arith, h)),
  )

module _ (dates : SqlDates) (fails : Faults) (clock : Time) (token : Option String)
    (params : StartAttemptParams) (db : Db) (run : Run) where
  claimed_row :
      (authorization : StartAuthorization)
      → (start_authorized dates fails clock token authorization params db).1 ≡ ok run
      → (k : TaskRow) × Memᴰ k db.tasks
        × (claims dates (start_time clock params.started_at) authorization params db.runs k ≡ true)
  claimed_row authorization e =
      let (_, _, n, _) =
        start_ok dates fails authorization params db clock token (pair_eq _ refl e) in
      counted_row _ db.tasks (omega (arith, n))

  -- A task that StartAutomaticAttempt starts is stored, and it is selected by its latest run, which
  -- is the expected one and ended by exhaustion of tokens: it is failed, scheduled and eligible at
  -- the time of the start.
  pub start_automatic-IsSelected :
      (start_automatic_attempt dates fails clock token params db).1 ≡ ok run
      → (k : TaskRow) × Memᴰ k db.tasks
        × (k.id ≡ params.task_id)
        × ((q : Run) × Memᴰ q db.runs
            × (q.id ≡ params.expected_run_id)
            × IsSelected dates
                (start_time clock params.started_at)
                ExitReason.token_budget_exhausted
                db.runs
                k
                q)
  unfolding start_automatic_attempt
  start_automatic-IsSelected e = elim (Bool-cases (no_failed_run params)) [
    | inl f ↦ absurd (ground (arith, e, f))
    | inr f ↦
        let (k, m, h) = claimed_row StartAuthorization.automatic_start (ground (arith, e, f)) in
        let (i, x) =
          claimed_automatic dates (start_time clock params.started_at) params db.runs f k h in
        (k, m, i, x)
  ]

  -- A task that StartInterruptedAttempt starts is stored, and it is selected by its latest run,
  -- which is the expected one and was interrupted: it is failed, scheduled and eligible at the time
  -- of the start.
  pub start_interrupted-IsSelected :
      (start_interrupted_attempt dates fails clock token params db).1 ≡ ok run
      → (k : TaskRow) × Memᴰ k db.tasks
        × (k.id ≡ params.task_id)
        × ((q : Run) × Memᴰ q db.runs
            × (q.id ≡ params.expected_run_id)
            × IsSelected dates
                (start_time clock params.started_at)
                ExitReason.interrupted
                db.runs
                k
                q)
  unfolding start_interrupted_attempt
  start_interrupted-IsSelected e = elim (Bool-cases (no_failed_run params)) [
    | inl f ↦ absurd (ground (arith, e, f))
    | inr f ↦
        let (k, m, h) = claimed_row StartAuthorization.interrupted_start (ground (arith, e, f)) in
        let (i, x) =
          claimed_interrupted dates (start_time clock params.started_at) params db.runs f k h in
        (k, m, i, x)
  ]
