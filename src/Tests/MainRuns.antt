-- ===== src/Tests/MainRuns.antt =====
-- The process with some of its commands, alone on a database, and what they print.
use mathlib.Core.List.{Memᴰ}
use mathlib.Core.List.Memᴰ
use mathlib.Core.List.Memᴰ.{head, tail}
use agent_inbox_question.Base.{
  ◌≤◌, ◌&&◌, arith, ℕ, String, Bool, none, some, List, [], ◌∷◌, ok, err, ◌≡◌, refl, pos, length,
  if◌then◌else◌, not, ◌==◌, str_eq,
}
use agent_inbox_question.Domain.Errors.{Error, Fallible}
use agent_inbox_question.Store.Database.{Db}
use agent_inbox_question.Domain.Status.{TaskStatus, same_task_status}
use agent_inbox_question.Store.Table.{count_where, find_where}
use agent_inbox_question.Store.Database.{no_faults, lease_live}
use agent_inbox_question.Store.Tasks.{Task, create_task, count_by_status, scan_task, task_row}
use agent_inbox_question.Store.Tasks.Laws.{create_task-IsConsistent}
use agent_inbox_question.Domain.Status.{AttemptOutcome}
use agent_inbox_question.Domain.Continuation.{no_continuation, parse_continuation}
use agent_inbox_question.Agent.Plan.{parse_directives}
use agent_inbox_question.Runner.World.{World}
use agent_inbox_question.Runner.Attempt.Completion.{is_done_task, is_succeeded}
use agent_inbox_question.Runner.Launch.{execute}
use agent_inbox_question.Runner.Launch.Alone.{IsAlone, IsWaiting}
use agent_inbox_question.Runner.Launch.Liveness.{execute-Finishes}
use agent_inbox_question.Store.System.{
  Reach, here, later, creating, empty_db, empty_db-IsConsistent,
}
use agent_inbox_question.Cli.List.{run_list}
use agent_inbox_question.Cli.Show.{run_show}
use agent_inbox_question.Cli.Status.{statuses, total_of, run_status}
use agent_inbox_question.Cli.Status.Laws.{total_of-length}
use agent_inbox_question.Cli.Main.Keeps.{command_app}
use agent_inbox_question.Cli.Main.Reports.{reports_read_only}
use agent_inbox_question.Cli.Print.{
  Console, new_output_printer, print_all, print_error, write_error,
}
use agent_inbox_question.Cli.Print.Laws.{print_all_prefix}
use agent_inbox_question.Base.Text.{bytes}
use agent_inbox_question.Cli.Table.{
  byte_length, table_lines, table_widths, spaced, cells, widen_all, widen, pad_right, repeat,
}
use agent_inbox_question.Cli.Table.Laws.{line_width, table_lines-width}
use agent_inbox_question.Cli.Shell.{Shell, App}
use agent_inbox_question.Cli.Main.{Process, Exit, run_main}
use agent_inbox_question.Cli.Main.Laws.{app_of, run_main-Reach}
use agent_inbox_question.Tests.AttemptRuns.{alone, before}
use agent_inbox_question.Tests.StoreRuns.{db}

abbrev task_table : List (List String)
task_table = ("1" ∷ "todo" ∷ "Write it" ∷ []) ∷ ("20" ∷ "done" ∷ "" ∷ []) ∷ []

abbrev task_headers : List String
task_headers = "ID" ∷ "STATUS" ∷ "TITLE" ∷ []

abbrev SameColumns : List (List String) → Type 0
SameColumns rows = (r : List String) → Memᴰ r rows → length r ≡ 3

table_columns : SameColumns task_table
table_columns r (head e) = rw e refl
table_columns r (tail (head e)) = rw e refl
table_columns r (tail (tail m)) = absurd (Memᴰ.not-nil m)

table_lines-width_example :
    byte_length "20  done            " ≡ line_width (table_widths task_headers task_table)
unfolding table_lines spaced cells widen_all widen pad_right bytes repeat
table_lines-width_example =
    table_lines-width task_headers task_table "20  done            " table_columns
      (tail (tail (tail (head refl))))

-- A terminal whose third write fails.
abbrev two_writes : ℕ → Bool
two_writes n = not (n == 2)

abbrev new_console : Console
new_console = record { written = []; writes = 0 }

print_all_prefix_example :
    let p = print_all two_writes ("a" ∷ "b" ∷ "c" ∷ "d" ∷ []) (new_output_printer new_console) in
    (p.console.written ≡ "a" ∷ "b" ∷ []) × (print_error p ≡ err write_error)
print_all_prefix_example = print_all_prefix two_writes ("a" ∷ "b" ∷ "c" ∷ "d" ∷ []) new_console

abbrev shell : Shell
shell = record {
  env = alone;
  accepts = two_writes;
  parse_int = λ t. if str_eq t "2" then some (pos 2) else none;
  list_flags = λ args. ok "";
  serve_flags = λ reset scan args.
      ok (record { reset_interval = reset; scan_interval = scan; arguments = 0 });
  days = λ hours. hours;
  rfc3339 = λ t. "";
}

abbrev process : Process
process = record {
  reset_variable = "";
  data_dir_variable = "data";
  home = none;
  parse_duration = λ t. none;
  flags = λ d. ok (record { data_dir = ""; reset_interval = d; args = "run" ∷ "2" ∷ [] });
  open_app = λ dir. if str_eq dir "data" then ok tt else err (Error.failure "open database");
}

abbrev app : App
app = record { world = before; console = new_console }

run_main-Reach_example :
    (x : Exit) × (run_main process shell 3 app ≡ some x) × Reach db (app_of x).world.db
run_main-Reach_example = run_main-Reach process shell 3 app (λ m db. here db)

-- A database with one task, which the process made.
abbrev one_task : Db
one_task = (create_task no_faults 10 "Write it" "" empty_db).0

abbrev one_count : TaskStatus → ℕ
one_count status = count_where (λ k. same_task_status k.status status) one_task.tasks

counts_one : count_by_status no_faults one_task ≡ ok one_count
unfolding count_by_status
counts_one = refl

total_of-length_example : total_of one_count statuses ≡ 1
unfolding create_task
total_of-length_example =
    total_of-length one_task no_faults one_count
      (later (here empty_db) (creating no_faults 10 "Write it" "" empty_db one_task refl))
      counts_one

reports_read_only_example :
    ((command_app (run_list shell ("2" ∷ []) app)).world.db ≡ db)
    × ((command_app (run_show shell ("2" ∷ []) app)).world.db ≡ db)
    × ((command_app (run_status shell app)).world.db ≡ db)
reports_read_only_example = reports_read_only shell (λ m db. refl) ("2" ∷ []) app

alone-IsAlone : IsAlone alone
unfolding lease_live
alone-IsAlone = record {
  alone = λ m db. refl;
  no_faults = λ m c. refl;
  goes_on = λ m. refl;
  ticks = λ m. refl;
  written = λ m. refl;
  printed = λ m. refl;
  named = λ m. refl;
  owned = λ m. refl;
  lasts = λ m k h. ground (arith, h);
  begins = λ m k h. ground (arith, h);
}

abbrev the_task : Task
the_task = record {
  id = 1;
  title = "Write it";
  description = "";
  status = TaskStatus.todo;
  created_at = 0;
  updated_at = 0;
  continuation = no_continuation;
}

one_task-IsWaiting : IsWaiting 1 the_task one_task
unfolding create_task find_where scan_task parse_continuation count_where
one_task-IsWaiting = record {
  row = task_row "Write it" "" 10 1;
  found = refl;
  scanned = refl;
  todo = refl;
  unstarted = refl;
}

execute-Finishes_example :
    (y : Fallible AttemptOutcome × World) × (execute alone 1 (record { db = one_task; moment = 0 })
      ≡ some y)
    × ((y.0 ≡ ok AttemptOutcome.completed)
        × (1 ≤ count_where (is_done_task 1) y.1.db.tasks)
        × (1 ≤ count_where (λ r. r.id == 1 && is_succeeded r.status) y.1.db.runs))
unfolding create_task parse_directives
execute-Finishes_example =
    execute-Finishes alone 1 alone-IsAlone the_task (record { db = one_task; moment = 0 })
      (create_task-IsConsistent no_faults 10 "Write it" "" empty_db empty_db-IsConsistent)
      one_task-IsWaiting refl refl refl
