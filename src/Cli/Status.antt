-- ===== src/Cli/Status.antt =====
-- internal/cli/status.go: RunStatus.
pub mod Laws
use agent_inbox_question.Base.{
  ℕ, ◌+◌, ◌-◌, String, ◌<>◌, List, [], ◌∷◌, ◌++◌, length, if◌then◌else◌, map, ok, err,
}
use agent_inbox_question.Base.Text.{itoa, codes}
use agent_inbox_question.Domain.Status.{TaskStatus, task_status_text}
use agent_inbox_question.Domain.Errors.{Fallible, is_not_found}
use agent_inbox_question.Store.Tasks.{Task, count_by_status, oldest_by_status}
use agent_inbox_question.Store.Selection.{Continuation, next}
use agent_inbox_question.Store.Continuations.{RunningAttempt, current, StoppedContinuation, stopped}
use agent_inbox_question.Runner.World.{World, pass}
use agent_inbox_question.Cli.Print.{Printer, printf, print_all}
use agent_inbox_question.Cli.Table.{repeat}
use agent_inbox_question.Cli.Shell.{Shell, App, Command, ended, printer, leave, leave_printed}

abbrev pub statuses : List TaskStatus
statuses = TaskStatus.todo ∷ TaskStatus.in_progress ∷ TaskStatus.done ∷ TaskStatus.failed ∷ []

-- `%-12s`, which counts code points.
abbrev pub left_aligned : String → String
left_aligned s = s <> repeat " " (12 - length (codes s))

-- The number of tasks with each of the statuses, and their sum.
unfoldable pub total_of : (TaskStatus → ℕ) → List TaskStatus → ℕ
total_of counts [] = 0
total_of counts (s ∷ ss) = counts s + total_of counts ss

abbrev pub count_line : (TaskStatus → ℕ) → TaskStatus → String
count_line counts s = left_aligned (task_status_text s) <> " " <> itoa (counts s) <> "\n"

abbrev pub total_line : ℕ → String
total_line n = left_aligned "total" <> " " <> itoa n <> "\n"

abbrev pub count_lines : (TaskStatus → ℕ) → List String
count_lines counts = map (count_line counts) statuses ++ total_line (total_of counts statuses) ∷ []

abbrev pub in_progress_lines : Fallible Task → List String
in_progress_lines (err e) = []
in_progress_lines (ok t) = ("\nIn progress: #" <> itoa t.id <> " " <> t.title <> "\n") ∷ []

abbrev pub stopped_line : StoppedContinuation → String
stopped_line c =
    "Stopped automatic continuation: task #" <> itoa c.task_id <> ": " <> c.reason <> "\n"

module _ (sh : Shell) where
  abbrev pub attempt_line : RunningAttempt → String
  attempt_line a =
      "\nCurrent attempt: task #"
      <> itoa a.task_id
      <> ", run #"
      <> itoa a.run_id
      <> ", lease expires "
      <> sh.rfc3339 a.lease_expires_at
      <> "\n"

  abbrev pub next_line : Continuation → String
  next_line c =
      "Next automatic continuation: task #"
      <> itoa c.task_id
      <> " at "
      <> sh.rfc3339 c.eligible_at
      <> "\n"

  -- The parts of the report, from the last to the first; each reads the tables anew.
  abbrev pub report_stopped : World → Printer → Fallible (List StoppedContinuation) → Command
  report_stopped w p (err e) = leave (err e) w p
  report_stopped w p (ok cs) = leave_printed w (
      print_all sh.accepts
        (map stopped_line cs ++ "Durable state does not prove a server process is alive.\n" ∷ []) p)

  abbrev pub then_stopped : World → Printer → Command
  then_stopped w p =
      let w' = pass sh.env w in report_stopped w' p (stopped (sh.env.fails w'.moment) w'.db)

  abbrev pub report_next : World → Printer → Fallible Continuation → Command
  report_next w p (ok c) = then_stopped w (printf sh.accepts (next_line c) p)
  report_next w p (err e) =
      if is_not_found e
      then then_stopped w (printf sh.accepts "Automatic continuation: nothing eligible\n" p)
      else leave (err e) w p

  abbrev pub then_next : World → Printer → Command
  then_next w p =
      let w' = pass sh.env w in report_next w' p (next sh.env.dates (sh.env.fails w'.moment) w'.db)

  abbrev pub report_current : World → Printer → Fallible RunningAttempt → Command
  report_current w p (ok a) = then_next w (printf sh.accepts (attempt_line a) p)
  report_current w p (err e) = if is_not_found e then then_next w p else leave (err e) w p

  abbrev pub then_current : World → Printer → Command
  then_current w p =
      let w' = pass sh.env w in report_current w' p (current (sh.env.fails w'.moment) w'.db)

  -- An error of the query of the task in progress is not reported.
  abbrev pub then_in_progress : World → Printer → Command
  then_in_progress w p =
      let w' = pass sh.env w in
      then_current w' (
        print_all sh.accepts
          (in_progress_lines
            (oldest_by_status (sh.env.fails w'.moment) TaskStatus.in_progress w'.db))
          p)

  abbrev pub report_counts : World → App → Fallible (TaskStatus → ℕ) → Command
  report_counts w app (err e) = ended (err e) (record app { world = w })
  report_counts w app (ok counts) =
      then_in_progress w (print_all sh.accepts (count_lines counts) (printer app))

  unfoldable pub run_status : App → Command
  unfolding pass
  run_status app =
      let w = pass sh.env app.world in
      report_counts w app (count_by_status (sh.env.fails w.moment) w.db)
