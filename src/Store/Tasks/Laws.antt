-- ===== src/Store/Tasks/Laws.antt =====
-- A created task is read back, lists hold every row in order, and insertions keep the tables
-- consistent.
use mathlib.Core.List.{Perm}
use agent_inbox_question.Base.{ℕ, String, Time, true, false, none, List, ok, ◌≡◌, arith}
use agent_inbox_question.Domain.Continuation.{parse_continuation}
use agent_inbox_question.Store.Table.{count_where, find_where}
use agent_inbox_question.Store.Order.{order_by, IsOrdered, order_by-perm, order_by-IsOrdered}
use agent_inbox_question.Store.Database.{TaskRow, Db, Faults, SqlCall}
use agent_inbox_question.Store.Invariant.{IsConsistent}
use agent_inbox_question.Store.Tasks.{
  Task, task_row, insert_task, create_task, get_task, whole_seconds, listed, open_first, list_tasks,
  scan_tasks,
}
use agent_inbox_question.Store.Comments.{create_comment}

insert_task-IsConsistent :
    (title description : String) (now : Time) (db : Db)
    → IsConsistent db
    → IsConsistent (insert_task (task_row title description now) db)
unfolding count_where
insert_task-IsConsistent title description now db c = record {
  tasks_fresh = (omega arith, c.tasks_fresh);
  runs_fresh = c.runs_fresh;
  owned = λ t. ground (arith, c.owned t);
}

-- Creation of a task keeps the tables consistent, with success or error.
pub create_task-IsConsistent :
    (fails : Faults) (now : Time) (title description : String) (db : Db)
    → IsConsistent db
    → IsConsistent (create_task fails now title description db).0
unfolding create_task
create_task-IsConsistent fails now title description db c =
    ground (arith, c, insert_task-IsConsistent title description now db c)

-- Creation of a comment keeps the tables consistent, with success or error.
pub create_comment-IsConsistent :
    (fails : Faults) (now : Time) (t : ℕ) (author body : String) (db : Db)
    → IsConsistent db
    → IsConsistent (create_comment fails now t author body db).0
unfolding create_comment
create_comment-IsConsistent fails now t author body db c = ground (arith, c)

-- A task that was created is read back, by a query that does not fail, as it was returned, with its
-- times cut to whole seconds.
pub get-create_task :
    (fails fails' : Faults) (now : Time) (title description : String) (db : Db) (t : Task)
    → (create_task fails now title description db).1 ≡ ok t
    → fails' SqlCall.conflict_query ≡ false
    → get_task fails' t.id (create_task fails now title description db).0
      ≡ ok (record t { created_at = whole_seconds now; updated_at = whole_seconds now })
unfolding create_task get_task find_where parse_continuation
get-create_task fails fails' now title description db t h q = ground (arith, q)

open_first_total : (k l : TaskRow) → open_first k l ≡ false → open_first l k ≡ true
open_first_total k l h = ground arith

-- What List without a filter gives is scanned from all the tasks, the open ones in front of those
-- that are done, each part in the order of ids.
pub list_tasks-IsOrdered :
    (fails : Faults) (db : Db) (ts : List Task)
    → list_tasks fails none db ≡ ok ts
    → (ks : List TaskRow) × Perm ks db.tasks × IsOrdered open_first ks × (scan_tasks ks ≡ ok ts)
unfolding list_tasks listed
list_tasks-IsOrdered fails db ts h = (
  order_by open_first db.tasks,
  order_by-perm open_first db.tasks,
  order_by-IsOrdered open_first open_first_total db.tasks,
  ground (arith, h),
)
