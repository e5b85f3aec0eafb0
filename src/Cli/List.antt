-- ===== src/Cli/List.antt =====
-- internal/cli/list.go: RunList.
use agent_inbox_question.Base.{
  ℕ, String, ◌<>◌, Option, none, some, List, [], ◌∷◌, if◌then◌else◌, str_eq, map, ok, err,
}
use agent_inbox_question.Base.Text.{itoa}
use agent_inbox_question.Domain.Status.{TaskStatus, task_status_text}
use agent_inbox_question.Domain.Errors.{Fallible}
use agent_inbox_question.Domain.Transition.{parse_task_status}
use agent_inbox_question.Store.Tasks.{Task, list_tasks}
use agent_inbox_question.Store.Runs.{count_by_task}
use agent_inbox_question.Runner.World.{World, pass}
use agent_inbox_question.Cli.Print.{relative_time, fprint, print_all}
use agent_inbox_question.Cli.Table.{table_lines}
use agent_inbox_question.Cli.Shell.{Shell, App, Command, ended, printer, leave_printed}

-- The count of runs is 0 where it cannot be read.
abbrev pub count_or_zero : Fallible ℕ → ℕ
count_or_zero (err e) = 0
count_or_zero (ok n) = n

abbrev pub filtered : Fallible TaskStatus → Fallible (Option TaskStatus)
filtered (err e) = err e
filtered (ok s) = ok (some s)

abbrev pub status_filter : String → Fallible (Option TaskStatus)
status_filter text = if str_eq text "" then ok none else filtered (parse_task_status text)

abbrev pub headers : List String
headers = "ID" ∷ "STATUS" ∷ "TITLE" ∷ "RUNS" ∷ "UPDATED" ∷ []

module _ (sh : Shell) where
  abbrev pub task_cells : Task → ℕ → World → List String
  task_cells t runs w =
      itoa t.id
      ∷ task_status_text t.status
      ∷ t.title
      ∷ itoa runs
      ∷ relative_time sh.days (sh.env.clock w.moment) t.updated_at
      ∷ []

  -- The rows, with the world after the queries that count the runs.
  unfoldable pub task_rows : List Task → World → List (List String) × World
  unfolding pass
  task_rows [] w = ([], w)
  task_rows (t ∷ ts) w =
      let w' = pass sh.env w in
      let runs = count_or_zero (count_by_task (sh.env.fails w'.moment) t.id w'.db) in
      let (rows, w'') = task_rows ts w' in (task_cells t runs w' ∷ rows, w'')

  abbrev pub print_table : List (List String) × World → App → Command
  print_table (rows, w) app =
      leave_printed w
        (print_all sh.accepts (map (λ line. line <> "\n") (table_lines headers rows)) (printer app))

  abbrev pub listed : World → App → Fallible (List Task) → Command
  listed w app (err e) = ended (err e) (record app { world = w })
  listed w app (ok []) =
      let (r, c) = fprint sh.accepts "No tasks.\n" app.console in
      ended r (record { world = w; console = c })
  listed w app (ok (t ∷ ts)) = print_table (task_rows (t ∷ ts) w) app

  abbrev pub list_by : App → Fallible (Option TaskStatus) → Command
  list_by app (err e) = ended (err e) app
  list_by app (ok filter) =
      let w = pass sh.env app.world in listed w app (list_tasks (sh.env.fails w.moment) filter w.db)

  abbrev pub list_text : App → Fallible String → Command
  list_text app (err e) = ended (err e) app
  list_text app (ok text) = list_by app (status_filter text)

  unfoldable pub run_list : List String → App → Command
  unfolding task_rows pass
  run_list args app = list_text app (sh.list_flags args)
