-- ===== src/Cli/Show.antt =====
-- internal/cli/show.go: RunShow.
use agent_inbox_question.Base.{
  ℕ, String, ◌<>◌, Time, Option, none, some, List, [], ◌∷◌, ◌++◌, if◌then◌else◌, str_eq, map, ok,
  err,
}
use agent_inbox_question.Base.Text.{itoa}
use agent_inbox_question.Domain.Status.{task_status_text, run_status_text, exit_reason_text}
use agent_inbox_question.Domain.Errors.{Fallible}
use agent_inbox_question.Store.Database.{Run, Comment}
use agent_inbox_question.Store.Tasks.{Task, get_task}
use agent_inbox_question.Store.Runs.{list_runs}
use agent_inbox_question.Store.Comments.{list_comments}
use agent_inbox_question.Runner.World.{World, pass}
use agent_inbox_question.Cli.Print.{Printer, relative_time, print_all}
use agent_inbox_question.Cli.Table.{repeat}
use agent_inbox_question.Cli.Shell.{
  Shell, App, Command, ended, first_id, printer, leave, leave_printed,
}

-- displayExitReason.
abbrev pub display_exit_reason : String → String
display_exit_reason s = if str_eq s "" then "(none)" else s

abbrev pub output_rule : String
output_rule = repeat "─" 32

module _ (sh : Shell) where
  abbrev pub ago_at : World → Time → String
  ago_at w t = relative_time sh.days (sh.env.clock w.moment) t

  abbrev pub task_lines : World → Task → List String
  task_lines w t =
      ("Task #" <> itoa t.id <> "\n")
      ∷ ("  Title:       " <> t.title <> "\n")
      ∷ ("  Description: " <> t.description <> "\n")
      ∷ ("  Status:      " <> task_status_text t.status <> "\n")
      ∷ ("  Created:     " <> ago_at w t.created_at <> "\n")
      ∷ ("  Updated:     " <> ago_at w t.updated_at <> "\n")
      ∷ []

  abbrev pub comment_line : World → Comment → String
  comment_line w c = "  [" <> c.author <> "] " <> c.body <> " (" <> ago_at w c.created_at <> ")\n"

  abbrev pub comment_lines : World → List Comment → List String
  comment_lines w [] = []
  comment_lines w (c ∷ cs) = "\n" ∷ "Comments:\n" ∷ map (comment_line w) (c ∷ cs)

  abbrev pub finished_text : World → Option Time → String
  finished_text w none = "running"
  finished_text w (some t) = ago_at w t

  abbrev pub error_lines : String → List String
  error_lines e = if str_eq e "" then [] else ("    Error:       " <> e <> "\n") ∷ []

  abbrev pub output_lines : Run → List String
  output_lines r =
      if str_eq r.output ""
      then []
      else "\n"
        ∷ (output_rule <> " run #" <> itoa r.id <> " output " <> output_rule <> "\n")
        ∷ (r.output <> "\n")
        ∷ []

  unfoldable pub run_lines : World → Run → List String
  run_lines w r =
      (("  Run #" <> itoa r.id <> "\n")
        ∷ ("    Session:     " <> r.session_id <> "\n")
        ∷ ("    Status:      " <> run_status_text r.status <> "\n")
        ∷ ("    Exit reason: " <> display_exit_reason (exit_reason_text r.exit_reason) <> "\n")
        ∷ ("    Tokens:      " <> itoa r.tokens_used <> " / " <> itoa r.token_budget <> "\n")
        ∷ ("    Started:     " <> ago_at w r.started_at <> "\n")
        ∷ ("    Finished:    " <> finished_text w r.finished_at <> "\n")
        ∷ [])
      ++ error_lines r.error
      ++ output_lines r

  -- A blank line stands between runs.
  unfoldable pub later_runs : World → List Run → List String
  unfolding run_lines
  later_runs w [] = []
  later_runs w (r ∷ rs) = "\n" ∷ run_lines w r ++ later_runs w rs

  abbrev pub all_runs : World → List Run → List String
  all_runs w [] = []
  all_runs w (r ∷ rs) = "\n" ∷ "Runs:\n" ∷ run_lines w r ++ later_runs w rs

  abbrev pub show_runs : World → Printer → Fallible (List Run) → Command
  show_runs w p (err e) = leave (err e) w p
  show_runs w p (ok rs) = leave_printed w (print_all sh.accepts (all_runs w rs) p)

  -- A failed print ends the command in front of the next query.
  abbrev pub then_runs : ℕ → World → Printer → Command
  then_runs id w p =
      let w' = pass sh.env w in
      if p.failed
      then leave_printed w p
      else show_runs w' p (list_runs (sh.env.fails w'.moment) id w'.db)

  abbrev pub show_comments : ℕ → World → Printer → Fallible (List Comment) → Command
  show_comments id w p (err e) = leave (err e) w p
  show_comments id w p (ok cs) = then_runs id w (print_all sh.accepts (comment_lines w cs) p)

  abbrev pub then_comments : ℕ → World → Printer → Command
  then_comments id w p =
      let w' = pass sh.env w in
      if p.failed
      then leave_printed w p
      else show_comments id w' p (list_comments (sh.env.fails w'.moment) id w'.db)

  abbrev pub show_task : ℕ → World → App → Fallible Task → Command
  show_task id w app (err e) = ended (err e) (record app { world = w })
  show_task id w app (ok t) =
      then_comments id w (print_all sh.accepts (task_lines w t) (printer app))

  abbrev pub show_id : App → Fallible ℕ → Command
  show_id app (err e) = ended (err e) app
  show_id app (ok id) =
      let w = pass sh.env app.world in show_task id w app (get_task (sh.env.fails w.moment) id w.db)

  unfoldable pub run_show : List String → App → Command
  unfolding later_runs pass
  run_show args app = show_id app (first_id sh args)
