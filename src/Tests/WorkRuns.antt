-- ===== src/Tests/WorkRuns.antt =====
-- Two tasks to do, and RunWork on them alone on its database.
use agent_inbox_question.Base.{◌≡◌, refl, ok, ◌∷◌}
use agent_inbox_question.Domain.Status.{TaskStatus}
use agent_inbox_question.Domain.Continuation.{parse_continuation}
use agent_inbox_question.Store.Database.{TaskRow, Db, no_faults}
use agent_inbox_question.Store.Selection.{rows_of, first_row}
use agent_inbox_question.Store.Tasks.{task_row, created_task, oldest_by_status}
use agent_inbox_question.Runner.World.{World}
use agent_inbox_question.Cli.Work.Visits.{Visits}
use agent_inbox_question.Tests.StoreRuns.{db}

abbrev newer : TaskRow
newer = task_row "docs" "" 0 4

abbrev todo_db : Db
todo_db = record db { tasks = newer ∷ task_row "auth" "" 0 3 ∷ db.tasks; task_seq = 4 }

oldest : oldest_by_status no_faults TaskStatus.todo todo_db ≡ ok (created_task "auth" "" 0 3)
unfolding oldest_by_status rows_of first_row parse_continuation
oldest = refl

abbrev waiting : World
waiting = record { db = todo_db; moment = 0 }
