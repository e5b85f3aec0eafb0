-- ===== src/Cli/Main/Reports.antt =====
-- list, show and status leave the tables to the other processes.
use agent_inbox_question.Base.{
  ℕ, String, Bool, true, false, Option, List, [], ◌∷◌, ok, err, ◌≡◌, refl, arith, if◌then◌else◌,
}
use agent_inbox_question.Domain.Errors.{Fallible, is_not_found}
use agent_inbox_question.Domain.Status.{TaskStatus}
use agent_inbox_question.Store.Database.{Db, Run, Comment}
use agent_inbox_question.Store.Tasks.{Task}
use agent_inbox_question.Store.Selection.{Continuation}
use agent_inbox_question.Store.Continuations.{RunningAttempt, StoppedContinuation}
use agent_inbox_question.Runner.World.{World, pass}
use agent_inbox_question.Cli.Print.{Printer}
use agent_inbox_question.Cli.Shell.{Shell, App, Command, ended, running, first_id}
use agent_inbox_question.Cli.List.{task_rows, listed, list_by, list_text, run_list, status_filter}
use agent_inbox_question.Cli.Show.{
  show_runs, then_runs, show_comments, then_comments, show_task, show_id, run_show,
}
use agent_inbox_question.Cli.Status.{
  report_stopped, then_stopped, report_next, then_next, report_current, report_counts, run_status,
}
use agent_inbox_question.Cli.Main.Keeps.{Keeps, command_app}

module _ (sh : Shell) (P : Db → Type 0)
    (onwards : (w : World) → P w.db → P (pass sh.env w).db) where
  either-Keeps : (b : Bool) (c d : Command) → Keeps P c → Keeps P d → Keeps P (if b then c else d)
  either-Keeps true c d h k = h
  either-Keeps false c d h k = k

  show_runs-Keeps :
      (w : World) (p : Printer) (x : Fallible (List Run)) → P w.db → Keeps P (show_runs sh w p x)
  show_runs-Keeps w p (err e) r = r
  show_runs-Keeps w p (ok rs) r = r

  then_runs-Keeps : (id : ℕ) (w : World) (p : Printer) → P w.db → Keeps P (then_runs sh id w p)
  then_runs-Keeps id w p r =
      either-Keeps p.failed _ _ r (show_runs-Keeps (pass sh.env w) p _ (onwards w r))

  show_comments-Keeps :
      (id : ℕ) (w : World) (p : Printer) (x : Fallible (List Comment))
      → P w.db
      → Keeps P (show_comments sh id w p x)
  show_comments-Keeps id w p (err e) r = r
  show_comments-Keeps id w p (ok cs) r = then_runs-Keeps id w _ r

  then_comments-Keeps :
      (id : ℕ) (w : World) (p : Printer) → P w.db → Keeps P (then_comments sh id w p)
  then_comments-Keeps id w p r =
      either-Keeps p.failed _ _ r (show_comments-Keeps id (pass sh.env w) p _ (onwards w r))

  show_task-Keeps :
      (id : ℕ) (w : World) (app : App) (x : Fallible Task)
      → P w.db
      → Keeps P (show_task sh id w app x)
  show_task-Keeps id w app (err e) r = r
  show_task-Keeps id w app (ok t) r = then_comments-Keeps id w _ r

  pub run_show-Keeps :
      (args : List String) (app : App) → P app.world.db → Keeps P (run_show sh args app)
  unfolding run_show
  run_show-Keeps args app r = by_id (first_id sh args)
    where
      by_id : (x : Fallible ℕ) → Keeps P (show_id sh app x)
      by_id (err e) = r
      by_id (ok id) = show_task-Keeps id (pass sh.env app.world) app _ (onwards app.world r)

  report_stopped-Keeps :
      (w : World) (p : Printer) (x : Fallible (List StoppedContinuation))
      → P w.db
      → Keeps P (report_stopped sh w p x)
  report_stopped-Keeps w p (err e) r = r
  report_stopped-Keeps w p (ok cs) r = r

  then_stopped-Keeps : (w : World) (p : Printer) → P w.db → Keeps P (then_stopped sh w p)
  then_stopped-Keeps w p r = report_stopped-Keeps (pass sh.env w) p _ (onwards w r)

  report_next-Keeps :
      (w : World) (p : Printer) (x : Fallible Continuation)
      → P w.db
      → Keeps P (report_next sh w p x)
  report_next-Keeps w p (ok c) r = then_stopped-Keeps w _ r
  report_next-Keeps w p (err e) r = either-Keeps (is_not_found e) _ _ (then_stopped-Keeps w _ r) r

  then_next-Keeps : (w : World) (p : Printer) → P w.db → Keeps P (then_next sh w p)
  then_next-Keeps w p r = report_next-Keeps (pass sh.env w) p _ (onwards w r)

  report_current-Keeps :
      (w : World) (p : Printer) (x : Fallible RunningAttempt)
      → P w.db
      → Keeps P (report_current sh w p x)
  report_current-Keeps w p (ok a) r = then_next-Keeps w _ r
  report_current-Keeps w p (err e) r = either-Keeps (is_not_found e) _ _ (then_next-Keeps w p r) r

  report_counts-Keeps :
      (w : World) (app : App) (x : Fallible (TaskStatus → ℕ))
      → P w.db
      → Keeps P (report_counts sh w app x)
  report_counts-Keeps w app (err e) r = r
  report_counts-Keeps w app (ok counts) r =
      let v = pass sh.env w in report_current-Keeps (pass sh.env v) _ _ (onwards v (onwards w r))

  pub run_status-Keeps : (app : App) → P app.world.db → Keeps P (run_status sh app)
  unfolding run_status
  run_status-Keeps app r = report_counts-Keeps (pass sh.env app.world) app _ (onwards app.world r)

  task_rows_keep : (ts : List Task) (w : World) → P w.db → P (task_rows sh ts w).1.db
  unfolding task_rows
  task_rows_keep [] w r = r
  task_rows_keep (t ∷ ts) w r = task_rows_keep ts (pass sh.env w) (onwards w r)

  listed-Keeps :
      (w : World) (app : App) (x : Fallible (List Task)) → P w.db → Keeps P (listed sh w app x)
  listed-Keeps w app (err e) r = r
  listed-Keeps w app (ok []) r = r
  listed-Keeps w app (ok (t ∷ ts)) r = task_rows_keep (t ∷ ts) w r

  pub run_list-Keeps :
      (args : List String) (app : App) → P app.world.db → Keeps P (run_list sh args app)
  unfolding run_list
  run_list-Keeps args app r = by_text (sh.list_flags args)
    where
      by_filter : (x : Fallible (Option TaskStatus)) → Keeps P (list_by sh app x)
      by_filter (err e) = r
      by_filter (ok f) = listed-Keeps (pass sh.env app.world) app _ (onwards app.world r)

      by_text : (x : Fallible String) → Keeps P (list_text sh app x)
      by_text (err e) = r
      by_text (ok t) = by_filter (status_filter t)

module _ (sh : Shell) (alone : (m : ℕ) (db : Db) → sh.env.others m db ≡ db) where
  pass-same : (start : Db) (w : World) → w.db ≡ start → (pass sh.env w).db ≡ start
  unfolding pass
  pass-same start w e = ground (arith, alone w.moment w.db, e)

  kept_app :
      (start : Db) (c : Command) → Keeps (λ db. db ≡ start) c → (command_app c).world.db ≡ start
  kept_app start (ended r app) e = e
  kept_app start (running app) e = e

  -- Where no other process acts, the commands list, show and status leave every table as it was,
  -- whatever their arguments, the answers of the queries and the answers of the writer.
  pub reports_read_only :
      (args : List String) (app : App)
      → ((command_app (run_list sh args app)).world.db ≡ app.world.db)
        × ((command_app (run_show sh args app)).world.db ≡ app.world.db)
        × ((command_app (run_status sh app)).world.db ≡ app.world.db)
  reports_read_only args app =
      let start = app.world.db in
      let P : Db → Type 0 = λ db. db ≡ start in
      (
        kept_app start _ (run_list-Keeps sh P (pass-same start) args app refl),
        kept_app start _ (run_show-Keeps sh P (pass-same start) args app refl),
        kept_app start _ (run_status-Keeps sh P (pass-same start) app refl),
      )
