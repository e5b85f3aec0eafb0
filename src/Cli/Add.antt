-- ===== src/Cli/Add.antt =====
-- internal/cli/add.go, internal/cli/run.go and internal/cli/resume.go.
use agent_inbox_question.Base.{
  ℕ, String, ◌<>◌, true, false, Option, none, some, List, [], ◌∷◌, if◌then◌else◌, str_eq, ok, err,
}
use agent_inbox_question.Base.Text.{itoa}
use agent_inbox_question.Domain.Status.{task_status_text, exit_reason_text}
use agent_inbox_question.Domain.Errors.{Error, Fallible}
use agent_inbox_question.Domain.Completion.{TerminalAttemptState, terminal_state}
use agent_inbox_question.Store.Database.{Db}
use agent_inbox_question.Store.Tasks.{Task, create_task}
use agent_inbox_question.Runner.World.{World, pass, put_db}
use agent_inbox_question.Runner.Launch.{Launched, execute, resume_manually}
use agent_inbox_question.Cli.Print.{fprint}
use agent_inbox_question.Cli.Shell.{Shell, App, Command, ended, first_id}

-- The first argument that is no flag is the title, as long as the title is empty.
abbrev pub title_or : String → String → String
title_or title arg = if str_eq title "" then arg else title

unfoldable pub add_args : String → String → List String → String × String
add_args title desc [] = (title, desc)
add_args title desc (a ∷ []) = (title_or title a, desc)
add_args title desc (a ∷ b ∷ args) = elim (str_eq a "-d") [
  | true ↦ add_args title b args
  | false ↦ add_args (title_or title a) desc (b ∷ args)
]

module _ (sh : Shell) where
  -- A text written on standard output ends the command.
  abbrev pub say : String → World → App → Command
  say text w app =
      let (r, c) = fprint sh.accepts text app.console in ended r (record { world = w; console = c })

  abbrev pub added : World → App → Db × Fallible Task → Command
  added w app (db, err e) = ended (err e) (record app { world = put_db w db })
  added w app (db, ok t) = say (itoa t.id <> "\n") (put_db w db) app

  unfoldable pub run_add : List String → App → Command
  unfolding add_args pass
  run_add args app =
      let (title, desc) = add_args "" "" args in
      let w = pass sh.env app.world in
      if str_eq title ""
      then ended (err (Error.failure "usage")) app
      else added w app (create_task (sh.env.fails w.moment) (sh.env.clock w.moment) title desc w.db)

  -- The outcome of Execute is not used.
  abbrev pub executed : App → Launched → Option Command
  executed app none = none
  executed app (some (err e, w)) = some (ended (err e) (record app { world = w }))
  executed app (some (ok _, w)) = some (ended (ok tt) (record app { world = w }))

  abbrev pub run_id : App → Fallible ℕ → Option Command
  run_id app (err e) = some (ended (err e) app)
  run_id app (ok id) = executed app (execute sh.env id app.world)

  unfoldable pub run_run : List String → App → Option Command
  run_run args app = run_id app (first_id sh args)

  abbrev pub resumed_line : ℕ → World → App → Fallible TerminalAttemptState → Command
  resumed_line id w app (err e) = ended (err e) (record app { world = w })
  resumed_line id w app (ok state) =
      say
        ("Task #"
          <> itoa id
          <> ": "
          <> task_status_text state.task_status
          <> " ("
          <> exit_reason_text state.exit_reason
          <> ")\n")
        w app

  abbrev pub resumed_task : ℕ → App → Launched → Option Command
  resumed_task id app none = none
  resumed_task id app (some (err e, w)) = some (ended (err e) (record app { world = w }))
  resumed_task id app (some (ok outcome, w)) = some (resumed_line id w app (terminal_state outcome))

  abbrev pub resume_id : App → Fallible ℕ → Option Command
  resume_id app (err e) = some (ended (err e) app)
  resume_id app (ok id) = resumed_task id app (resume_manually sh.env id app.world)

  unfoldable pub run_resume : List String → App → Option Command
  run_resume args app = resume_id app (first_id sh args)
