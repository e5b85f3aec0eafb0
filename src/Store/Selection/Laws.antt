-- ===== src/Store/Selection/Laws.antt =====
-- Which continuation and which expired attempt is selected.
use mathlib.Core.List.{Memᴰ}
use agent_inbox_question.Base.{Time, true, Option, none, some, ok, ◌≡◌, refl, arith, false}
use agent_inbox_question.Domain.Status.{TaskStatus, RunStatus, ContinuationKind}
use agent_inbox_question.Store.Database.{
  TaskRow, Run, Db, SqlDates, Faults, SqlCall, latest_run, lease_expired,
}
use agent_inbox_question.Store.Selection.Rows.{
  rows_of-from, rows_of_keep, first_row-Mem, some_first, first_row-le,
}
use agent_inbox_question.Store.Selection.{
  rows_of, first_row, Continuation, is_resumable, due, due_with, due_before, next, expired,
  expired_with, expired_before, run_column, next_expired,
}

-- `<=` on TEXT under the BINARY collation is a total preorder.
pub record IsOrder (dates : SqlDates) : Type 0 where
  pub reflexive : (t : Time) → dates.text_le t t ≡ true
  pub total : (t u : Time) → dates.text_le t u ≡ false → dates.text_le u t ≡ true
  pub transitive :
      (t u v : Time)
      → dates.text_le t u ≡ true
      → dates.text_le u v ≡ true
      → dates.text_le t v ≡ true

-- What is known of a task that is due.
abbrev pub Due : TaskRow → Option Time → Option Run → Continuation → Type 0
Due k at o c =
    (r : Run) × (o ≡ some r)
    × (at ≡ some c.eligible_at)
    × (k.id ≡ c.task_id)
    × (k.status ≡ TaskStatus.failed)
    × (k.auto_retry_state ≡ ContinuationKind.scheduled)
    × (r.id ≡ c.run_id)
    × (r.exit_reason ≡ c.exit_reason)
    × (is_resumable c.exit_reason ≡ true)

due_with-Due :
    (k : TaskRow) (at : Option Time) (o : Option Run) (c : Continuation)
    → due_with k at o ≡ some c
    → Due k at o c
due_with-Due k none o c h = cc
due_with-Due k (some t) none c h = cc
due_with-Due k (some t) (some r) c h = (
  r,
  refl,
  ground arith,
  ground arith,
  ground arith,
  ground arith,
  ground arith,
  ground arith,
  ground arith,
)

run_column-some :
    (o : Option (Time × Run)) (r : Run) → run_column o ≡ some r → (t : Time) × (o ≡ some (t, r))
run_column-some none r h = cc
run_column-some (some (t, q)) r h = (t, ground arith)

expired_row :
    (dates : SqlDates) (now : Time) (fails : Faults) (db : Db) {r : Run}
    → next_expired dates now fails db ≡ ok r
    → run_column (first_row (expired_before dates) (rows_of (expired dates now) db.runs)) ≡ some r
unfolding next_expired
expired_row dates now fails db h = ground arith

expired_with-parts :
    (dates : SqlDates) (now : Time) (q : Run) (at : Option Time) (y : Time × Run)
    → expired_with dates now q at ≡ some y
    → (y.1 ≡ q)
      × (q.status ≡ RunStatus.running)
      × (at ≡ some y.0)
      × (lease_expired dates now at ≡ true)
unfolding lease_expired
expired_with-parts dates now q none y h = cc
expired_with-parts dates now q (some at) y h =
    (ground arith, ground arith, ground arith, ground arith)

module _ (dates : SqlDates) (fails : Faults) (db : Db) where
  next_row :
      {c : Continuation}
      → next dates fails db ≡ ok c
      → first_row (due_before dates) (rows_of (due db.runs) db.tasks) ≡ some c
  unfolding next
  next_row h = ground arith

  -- The continuation that Next selects is of a stored task that is failed and scheduled, at that
  -- task's eligibility, with its latest run, which exhaustion of tokens or an interruption ended.
  pub next_sound :
      (c : Continuation)
      → next dates fails db ≡ ok c
      → (k : TaskRow) × Memᴰ k db.tasks × Due k k.next_eligible_at (latest_run k.id db.runs) c
  unfolding due
  next_sound c h =
      let (k, m, e) =
        rows_of-from (due db.runs) c db.tasks (first_row-Mem (due_before dates) _ (next_row h)) in
      (k, m, due_with-Due k k.next_eligible_at (latest_run k.id db.runs) c e)

  -- When texts of timestamps are totally ordered, no stored task that is due has an eligibility
  -- whose text comes before that of the continuation that Next selects.
  pub next_first :
      IsOrder dates
      → (c d : Continuation) (k : TaskRow) → next dates fails db ≡ ok c
      → Memᴰ k db.tasks
      → due db.runs k ≡ some d
      → dates.text_le c.eligible_at d.eligible_at ≡ true
  next_first o c d k h m e =
      first_row-le (due_before dates) (λ x y. dates.text_le x.eligible_at y.eligible_at)
        (λ x y z. o.transitive _ _ _) (λ x. o.reflexive _) (λ x y b. ground (arith, b))
        (λ x y b. ground (arith, b, o.total x.eligible_at y.eligible_at, o.reflexive)) _ c d
        (next_row h) (rows_of_keep (due db.runs) k d db.tasks m e)

  -- When the query does not fail and some stored task is due, Next selects a continuation.
  pub next_total :
      fails SqlCall.conflict_query ≡ false
      → (d : Continuation) (k : TaskRow) → Memᴰ k db.tasks
      → due db.runs k ≡ some d
      → (c : Continuation) × (next dates fails db ≡ ok c)
  unfolding next
  next_total f d k m e =
      let (c, g) =
        some_first (due_before dates) d _ (rows_of_keep (due db.runs) k d db.tasks m e) in
      (c, rw (f, g) refl)

-- The attempt that NextExpired selects is a running one of the table, and its lease is over by the
-- database's clock.
pub next_expired_sound :
    (dates : SqlDates) (now : Time) (fails : Faults) (db : Db) (r : Run)
    → next_expired dates now fails db ≡ ok r
    → Memᴰ r db.runs
      × (r.status ≡ RunStatus.running)
      × (lease_expired dates now r.lease_expires_at ≡ true)
unfolding expired
next_expired_sound dates now fails db r h =
    let (t, g) = run_column-some _ r (expired_row dates now fails db h) in
    let (q, m, e) =
      rows_of-from (expired dates now) (t, r) db.runs (first_row-Mem (expired_before dates) _ g) in
    let (a, b, _, d) = expired_with-parts dates now q q.lease_expires_at (t, r) e in rw a (m, b, d)
