-- ===== src/Store/Tasks/Oldest.antt =====
-- internal/store/task_repo.go: OldestByStatus, the task that RunWork takes.
use mathlib.Core.List.{Memᴰ}
use agent_inbox_question.Base.{
  ◌≤◌, leb→le, Bool, true, some, ok, ◌≡◌, refl, inl, inr, Option-cases, arith,
}
use agent_inbox_question.Domain.Status.{TaskStatus, same_task_status}
use agent_inbox_question.Store.Database.{TaskRow, Db, Faults}
use agent_inbox_question.Store.Selection.{rows_of, first_row}
use agent_inbox_question.Store.Selection.Rows.{
  rows_of-from, rows_of_keep, first_row-Mem, first_row-le,
}
use agent_inbox_question.Store.Tasks.{Task, scan_task, kept, by_task_id, oldest_by_status}

kept-some : (p : TaskRow → Bool) (x y : TaskRow) → kept p x ≡ some y → (p y ≡ true) × (x ≡ y)
kept-some p x y h = ground arith

module _ (fails : Faults) (status : TaskStatus) (db : Db) where
  abbrev in_status : TaskRow → Bool
  in_status k = same_task_status k.status status

  oldest_row :
      (t : Task)
      → oldest_by_status fails status db ≡ ok t
      → (k : TaskRow) × (first_row by_task_id (rows_of (kept in_status) db.tasks) ≡ some k)
        × (scan_task k ≡ ok t)
  unfolding oldest_by_status
  oldest_row t h = elim (Option-cases (first_row by_task_id (rows_of (kept in_status) db.tasks))) [
    | inl e ↦ ground (arith, h, e)
    | inr (k, e) ↦ (k, e, ground (arith, h, e))
  ]

  -- The task that OldestByStatus gives is read from a stored task in that status, and no stored
  -- task in the status has a smaller id.
  pub oldest_by_status_first :
      (t : Task) (l : TaskRow)
      → oldest_by_status fails status db ≡ ok t
      → Memᴰ l db.tasks
      → same_task_status l.status status ≡ true
      → (k : TaskRow) × Memᴰ k db.tasks
        × (scan_task k ≡ ok t)
        × (same_task_status k.status status ≡ true)
        × (k.id ≤ l.id)
  oldest_by_status_first t l h m s =
      let (k, f, e) = oldest_row t h in
      let (x, i, g) = rows_of-from (kept in_status) k db.tasks (first_row-Mem by_task_id _ f) in
      let (p, q) = kept-some in_status x k g in
      (
        k,
        rw (← q) i,
        e,
        p,
        leb→le k.id l.id (
            first_row-le by_task_id by_task_id (λ x y z a b. ground (arith, a, b))
              (λ x. ground arith) (λ x y b. b) (λ x y b. ground (arith, b)) _ k l f
              (rows_of_keep (kept in_status) l l db.tasks m (rw s refl))),
      )
