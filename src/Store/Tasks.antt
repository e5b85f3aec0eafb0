-- ===== src/Store/Tasks.antt =====
-- internal/store/task_repo.go. A query reads the rows in the order that it asks for and scans each of
-- them.
pub mod Laws
pub mod Oldest
use agent_inbox_question.Base.{
  ℕ, suc, ◌-◌, ◌%◌, String, Time, Bool, true, false, ◌&&◌, ◌||◌, Option, none, some, List, [], ◌∷◌,
  if◌then◌else◌, ◌==◌, leb, ok, err, ◌>>=◌,
}
use agent_inbox_question.Domain.Status.{TaskStatus, ContinuationKind, same_task_status}
use agent_inbox_question.Domain.Errors.{Error, Fallible}
use agent_inbox_question.Domain.Continuation.{
  ContinuationDecision, no_continuation, parse_continuation,
}
use agent_inbox_question.Domain.Transition.{transition}
use agent_inbox_question.Store.Table.{count_where, update_where, find_where}
use agent_inbox_question.Store.Order.{order_by}
use agent_inbox_question.Store.Database.{TaskRow, Db, Faults, SqlCall, sql_failure}
use agent_inbox_question.Store.Selection.{rows_of, first_row, scan_row}

-- `domain.Task`.
pub record Task : Type 0 where
  pub id : ℕ
  pub title : String
  pub description : String
  pub status : TaskStatus
  pub created_at : Time
  pub updated_at : Time
  pub continuation : ContinuationDecision

-- `Format(time.RFC3339)` writes whole seconds, and time 0 falls on one.
abbrev pub whole_seconds : Time → Time
whole_seconds t = t - t % 1_000_000_000

-- A new row: the columns that are not inserted have their defaults.
abbrev pub task_row : String → String → Time → ℕ → TaskRow
task_row title description now id = record {
  id = id;
  title = title;
  description = description;
  status = TaskStatus.todo;
  created_at = whole_seconds now;
  updated_at = whole_seconds now;
  next_eligible_at = none;
  auto_retry_state = ContinuationKind.none;
  auto_retry_reason = "";
}

abbrev pub created_task : String → String → Time → ℕ → Task
created_task title description now id = record {
  id = id;
  title = title;
  description = description;
  status = TaskStatus.todo;
  created_at = now;
  updated_at = now;
  continuation = no_continuation;
}

abbrev pub insert_task : (ℕ → TaskRow) → Db → Db
insert_task row db = record db {
  tasks = row (suc db.task_seq) ∷ db.tasks;
  task_seq = suc db.task_seq;
}

unfoldable pub create_task : Faults → Time → String → String → Db → Db × Fallible Task
create_task fails now title description db =
    let db' = insert_task (task_row title description now) db in
    if fails SqlCall.insert
    then (db, err sql_failure)
    else if fails SqlCall.last_id
    then (db', err sql_failure)
    else (db', ok (created_task title description now (suc db.task_seq)))

unfoldable pub scan_task : TaskRow → Fallible Task
scan_task k = do
  continuation ← parse_continuation k.auto_retry_state k.next_eligible_at k.auto_retry_reason
  ok (record {
    id = k.id;
    title = k.title;
    description = k.description;
    status = k.status;
    created_at = k.created_at;
    updated_at = k.updated_at;
    continuation = continuation;
  })

unfoldable pub get_task : Faults → ℕ → Db → Fallible Task
unfolding scan_task
get_task fails id db = do k ← scan_row fails (find_where (λ k. k.id == id) db.tasks); scan_task k

-- `for rows.Next()`: the first row that cannot be scanned ends the query.
unfoldable pub scan_tasks : List TaskRow → Fallible (List Task)
unfolding scan_task
scan_tasks [] = ok []
scan_tasks (k ∷ ks) = do t ← scan_task k; ts ← scan_tasks ks; ok (t ∷ ts)

abbrev pub kept {ℓ} : {A : Type ℓ} → (A → Bool) → A → Option A
kept p x = if p x then some x else none

abbrev pub is_done : TaskStatus → Bool
is_done TaskStatus.done = true
is_done _ = false

abbrev pub by_task_id : TaskRow → TaskRow → Bool
by_task_id k l = leb k.id l.id

-- `ORDER BY CASE WHEN status = 'done' THEN 1 ELSE 0 END, id`.
abbrev pub open_first : TaskRow → TaskRow → Bool
open_first k l =
    if is_done k.status
    then is_done l.status && leb k.id l.id
    else is_done l.status || leb k.id l.id

-- The rows that List reads, in their order.
unfoldable pub listed : Option TaskStatus → List TaskRow → List TaskRow
listed none tasks = order_by open_first tasks
listed (some status) tasks =
    order_by by_task_id (rows_of (kept (λ k. same_task_status k.status status)) tasks)

unfoldable pub list_tasks : Faults → Option TaskStatus → Db → Fallible (List Task)
unfolding listed scan_tasks
list_tasks fails filter db =
    if fails SqlCall.conflict_query then err sql_failure else scan_tasks (listed filter db.tasks)

-- Transition of one task, as UpdateStatus of a row that is still in its old status.
unfoldable pub transition_task :
    Faults → Time → ℕ → TaskStatus → TaskStatus → Db → Db × Fallible (Unit {0})
transition_task fails now id from to db = elim (transition from to) [
  | err e ↦ (db, err e)
  | ok _ ↦
      let fits = λ (k : TaskRow). k.id == id && same_task_status k.status from in
      let db' = record db {
        tasks =
            update_where fits (λ k. record k { status = to; updated_at = whole_seconds now })
              db.tasks;
      } in
      if fails SqlCall.first_exec
      then (db, err sql_failure)
      else if fails SqlCall.first_count
      then (db', err sql_failure)
      else if count_where fits db.tasks == 0
      then (db', err Error.conflict)
      else (db', ok tt)
]

-- `GROUP BY status`, as the map from a status to its count; a status with no row has none, and 0 is
-- what the map gives for it.
unfoldable pub count_by_status : Faults → Db → Fallible (TaskStatus → ℕ)
count_by_status fails db =
    if fails SqlCall.conflict_query
    then err sql_failure
    else ok (λ status. count_where (λ k. same_task_status k.status status) db.tasks)

unfoldable pub oldest_by_status : Faults → TaskStatus → Db → Fallible Task
unfolding scan_task
oldest_by_status fails status db = do
  k ←
      scan_row fails
        (first_row by_task_id (rows_of (kept (λ k. same_task_status k.status status)) db.tasks))
  scan_task k
