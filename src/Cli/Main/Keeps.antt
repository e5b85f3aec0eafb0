-- ===== src/Cli/Main/Keeps.antt =====
-- What add, run and resume do to the tables.
use agent_inbox_question.Base.{
  ℕ, String, Option, none, some, List, ok, err, refl, inl, inr, Bool-cases, str_eq,
}
use agent_inbox_question.Domain.Errors.{Fallible}
use agent_inbox_question.Domain.Completion.{TerminalAttemptState, terminal_state}
use agent_inbox_question.Store.Database.{Db}
use agent_inbox_question.Store.Tasks.{Task}
use agent_inbox_question.Store.System.{Reach, later, creating}
use agent_inbox_question.Runner.World.{World, pass}
use agent_inbox_question.Runner.Launch.{Launched, execute, resume_manually}
use agent_inbox_question.Runner.Launch.Laws.{Arrives, pass-Reach, execute-Arrives, resume-Arrives}
use agent_inbox_question.Cli.Shell.{Shell, App, Command, ended, running, first_id}
use agent_inbox_question.Cli.Add.{
  added, run_add, add_args, executed, run_id, run_run, resumed_line, resumed_task, resume_id,
  run_resume,
}

-- Where a command ends or is.
abbrev pub command_app : Command → App
command_app (ended r app) = app
command_app (running app) = app

-- What a predicate on tables says of those that a command leaves.
abbrev pub Keeps : (Db → Type 0) → Command → Type 0
Keeps P (ended r app) = P app.world.db
Keeps P (running app) = P app.world.db

abbrev pub Ends : (Db → Type 0) → Option Command → Type 0
Ends P none = ⊥
Ends P (some c) = Keeps P c

module _ (sh : Shell) (others : (m : ℕ) (db : Db) → Reach db (sh.env.others m db))
    (start : Db) where
  pub passes : (w : World) → Reach start w.db → Reach start (pass sh.env w).db
  passes = pass-Reach sh.env others start

  added-Keeps :
      (w : World) (app : App) (x : Db × Fallible Task)
      → Reach start x.0
      → Keeps (Reach start) (added sh w app x)
  added-Keeps w app (db, err e) r = r
  added-Keeps w app (db, ok t) r = r

  pub run_add-Keeps :
      (args : List String) (app : App)
      → Reach start app.world.db
      → Keeps (Reach start) (run_add sh args app)
  unfolding run_add
  run_add-Keeps args app r = elim (Bool-cases (str_eq (add_args "" "" args).0 "")) [
    | inl e ↦ rw e r
    | inr e ↦
        let w = pass sh.env app.world in
        rw e (
          added-Keeps w app _ (
            later (passes app.world r) (
              creating (sh.env.fails w.moment) (sh.env.clock w.moment) (add_args "" "" args).0
                (add_args "" "" args).1 w.db _ refl)))
  ]

  executed-Ends :
      (app : App) (x : Launched) → Arrives start x → Ends (Reach start) (executed sh app x)
  executed-Ends app none a = a
  executed-Ends app (some (err e, w)) a = a
  executed-Ends app (some (ok o, w)) a = a

  pub run_run-Ends :
      (args : List String) (app : App)
      → Reach start app.world.db
      → Ends (Reach start) (run_run sh args app)
  unfolding run_run
  run_run-Ends args app r = by_id (first_id sh args)
    where
      by_id : (x : Fallible ℕ) → Ends (Reach start) (run_id sh app x)
      by_id (err e) = r
      by_id (ok id) =
          executed-Ends app (execute sh.env id app.world)
            (execute-Arrives sh.env others start id app.world r)

  resumed_line-Keeps :
      (id : ℕ) (w : World) (app : App) (x : Fallible TerminalAttemptState)
      → Reach start w.db
      → Keeps (Reach start) (resumed_line sh id w app x)
  resumed_line-Keeps id w app (err e) r = r
  resumed_line-Keeps id w app (ok t) r = r

  resumed_task-Ends :
      (id : ℕ) (app : App) (x : Launched)
      → Arrives start x
      → Ends (Reach start) (resumed_task sh id app x)
  resumed_task-Ends id app none a = a
  resumed_task-Ends id app (some (err e, w)) a = a
  resumed_task-Ends id app (some (ok o, w)) a = resumed_line-Keeps id w app (terminal_state o) a

  pub run_resume-Ends :
      (args : List String) (app : App)
      → Reach start app.world.db
      → Ends (Reach start) (run_resume sh args app)
  unfolding run_resume resume_manually
  run_resume-Ends args app r = by_id (first_id sh args)
    where
      by_id : (x : Fallible ℕ) → Ends (Reach start) (resume_id sh app x)
      by_id (err e) = r
      by_id (ok id) =
          resumed_task-Ends id app (resume_manually sh.env id app.world)
            (resume-Arrives sh.env others start _ app.world r)
