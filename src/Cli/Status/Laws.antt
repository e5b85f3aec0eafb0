-- ===== src/Cli/Status/Laws.antt =====
-- The counts of the report add up.
use agent_inbox_question.Base.{ℕ, ◌+◌, List, [], ◌∷◌, length, ok, ◌≡◌, refl, arith}
use agent_inbox_question.Domain.Status.{TaskStatus, same_task_status}
use agent_inbox_question.Store.Table.{count_where}
use agent_inbox_question.Store.Database.{Db, TaskRow, Faults}
use agent_inbox_question.Store.Tasks.{count_by_status}
use agent_inbox_question.Store.System.{Reach, empty_db}
use agent_inbox_question.Store.System.Known.{is_other, Reach-IsKnown, empty_db-IsKnown}
use agent_inbox_question.Cli.Status.{statuses, total_of}

abbrev counted_as : List TaskRow → TaskStatus → ℕ
counted_as tasks s = count_where (λ k. same_task_status k.status s) tasks

total_of_tasks :
    (tasks : List TaskRow)
    → total_of (counted_as tasks) statuses + count_where (λ k. is_other k.status) tasks
      ≡ length tasks
unfolding count_where total_of
total_of_tasks [] = refl
total_of_tasks (k ∷ ks) = ground (arith, total_of_tasks ks)

answered_counts :
    (fails : Faults) (db : Db) (counts : TaskStatus → ℕ)
    → count_by_status fails db ≡ ok counts
    → counted_as db.tasks ≡ counts
unfolding count_by_status
answered_counts fails db counts e = ground arith

-- From empty tables, whatever writes of Step any processes make in any order, the counts that
-- CountByStatus gives, where its query does not fail, add up over the four statuses to the number
-- of all the tasks.
pub total_of-length :
    (db : Db) (fails : Faults) (counts : TaskStatus → ℕ)
    → Reach empty_db db
    → count_by_status fails db ≡ ok counts
    → total_of counts statuses ≡ length db.tasks
total_of-length db fails counts r e =
    rw (← answered_counts fails db counts e)
      (omega (arith, total_of_tasks db.tasks, (Reach-IsKnown r empty_db-IsKnown).none_other))
