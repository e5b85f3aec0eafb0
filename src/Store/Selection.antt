-- ===== src/Store/Selection.antt =====
-- internal/store/continuation_repo.go: Next; internal/store/attempt_repo.go:
-- NextExpired. A query selects rows, orders them and takes the first.
pub mod Rows
pub mod Laws
use agent_inbox_question.Base.{
  ℕ, Time, Bool, true, false, ◌&&◌, ◌||◌, not, Option, none, some, List, [], ◌∷◌, leb,
  if◌then◌else◌, ok, err,
}
use agent_inbox_question.Domain.Status.{
  TaskStatus, ExitReason, is_running, is_scheduled, same_task_status,
}
use agent_inbox_question.Domain.Errors.{Error, Fallible}
use agent_inbox_question.Store.Database.{
  TaskRow, Run, Db, Faults, SqlCall, SqlDates, sql_failure, latest_run,
}

-- The rows that a query gives, each with its columns, in the table's order.
abbrev pub row_onto {ℓ} : {B : Type ℓ} → Option B → List B → List B
row_onto none rest = rest
row_onto (some y) rest = y ∷ rest

unfoldable pub rows_of {ℓ κ} : {A : Type ℓ} {B : Type κ} → (A → Option B) → List A → List B
rows_of columns [] = []
rows_of columns (x ∷ xs) = row_onto (columns x) (rows_of columns xs)

-- `ORDER BY ... LIMIT 1`.
abbrev pub earlier {ℓ} : {B : Type ℓ} → (B → B → Bool) → B → Option B → B
earlier before y none = y
earlier before y (some z) = if before y z then y else z

unfoldable pub first_row {ℓ} : {B : Type ℓ} → (B → B → Bool) → List B → Option B
first_row before [] = none
first_row before (y ∷ ys) = some (earlier before y (first_row before ys))

-- `ORDER BY t, id` for a timestamp that is stored as text.
abbrev pub by_text : SqlDates → Time → ℕ → Time → ℕ → Bool
by_text dates t i u j = dates.text_le t u && (not (dates.text_le u t) || leb i j)

-- `row.Scan`, where no row is `sql.ErrNoRows`.
abbrev pub found {ℓ} : {B : Type ℓ} → Option B → Fallible B
found none = err Error.not_found
found (some y) = ok y

abbrev pub scan_row {ℓ} : {B : Type ℓ} → Faults → Option B → Fallible B
scan_row fails row = if fails SqlCall.conflict_query then err sql_failure else found row

pub record Continuation : Type 0 where
  pub task_id : ℕ
  pub run_id : ℕ
  pub exit_reason : ExitReason
  pub eligible_at : Time

-- `exit_reason IN (?, ?)`.
abbrev pub is_resumable : ExitReason → Bool
is_resumable ExitReason.token_budget_exhausted = true
is_resumable ExitReason.interrupted = true
is_resumable _ = false

-- The WHERE clause of Next on a task, its eligibility and its latest run.
abbrev pub due_with : TaskRow → Option Time → Option Run → Option Continuation
due_with k (some at) (some r) =
    if same_task_status k.status TaskStatus.failed
      && is_scheduled k.auto_retry_state
      && is_resumable r.exit_reason
    then some
        (record { task_id = k.id; run_id = r.id; exit_reason = r.exit_reason; eligible_at = at })
    else none
due_with k _ _ = none

unfoldable pub due : List Run → TaskRow → Option Continuation
due runs k = due_with k k.next_eligible_at (latest_run k.id runs)

abbrev pub due_before : SqlDates → Continuation → Continuation → Bool
due_before dates c d = by_text dates c.eligible_at c.task_id d.eligible_at d.task_id

unfoldable pub next : SqlDates → Faults → Db → Fallible Continuation
next dates fails db = scan_row fails (first_row (due_before dates) (rows_of (due db.runs) db.tasks))

-- NextExpired: a running attempt whose lease is over, with the text of its lease.
abbrev pub expired_with : SqlDates → Time → Run → Option Time → Option (Time × Run)
expired_with dates now r none = none
expired_with dates now r (some at) =
    if is_running r.status && leb (dates.julianday at) (dates.julianday now)
    then some (at, r)
    else none

unfoldable pub expired : SqlDates → Time → Run → Option (Time × Run)
expired dates now r = expired_with dates now r r.lease_expires_at

abbrev pub expired_before : SqlDates → Time × Run → Time × Run → Bool
expired_before dates (t, r) (u, q) = by_text dates t r.id u q.id

-- The run without the text that ordered it.
abbrev pub run_column : Option (Time × Run) → Option Run
run_column none = none
run_column (some (t, r)) = some r

unfoldable pub next_expired : SqlDates → Time → Faults → Db → Fallible Run
next_expired dates now fails db =
    scan_row fails
      (run_column (first_row (expired_before dates) (rows_of (expired dates now) db.runs)))
