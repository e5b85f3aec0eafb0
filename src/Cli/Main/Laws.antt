-- ===== src/Cli/Main/Laws.antt =====
-- What the process does to the tables.
use agent_inbox_question.Base.{
  false, ℕ, String, Duration, Option, none, some, List, [], ◌∷◌, Result, ok, err, ◌≡◌, refl, ◌==◌,
  inl, inr, Bool-cases,
}
use agent_inbox_question.Domain.Errors.{Fallible}
use agent_inbox_question.Store.Database.{Db}
use agent_inbox_question.Store.System.{Reach, here, Reach-trans}
use agent_inbox_question.Runner.Launch.Laws.{pass-Reach}
use agent_inbox_question.Server.{ServerRound, stop, again, new_server}
use agent_inbox_question.Server.Laws.{world_after, server_rounds-Reach}
use agent_inbox_question.Cli.Shell.{Shell, App, ServeFlags, Command, ended, running}
use agent_inbox_question.Cli.Add.{run_add, run_run, run_resume}
use agent_inbox_question.Cli.List.{run_list}
use agent_inbox_question.Cli.Show.{run_show}
use agent_inbox_question.Cli.Status.{run_status}
use agent_inbox_question.Cli.Serve.{
  or_reset_interval, default_scan_interval, nanoseconds, served, serve_with, serve_flagged,
  run_serve,
}
use agent_inbox_question.Cli.Work.{WorkRound, finished, more, no_work, work_rounds}
use agent_inbox_question.Cli.Work.Laws.{work_world, work_rounds-IsTallied}
use agent_inbox_question.Cli.Main.{
  GlobalFlags, Process, Exit, exited, unfinished, worked, Verb, verb_of, dispatch, exit_of,
  exit_after, with_interval, run_opened, run_args, run_flagged, run_defaulted,
  reset_interval_from_env, run_main,
}
use agent_inbox_question.Cli.Main.Keeps.{Ends, run_add-Keeps, run_run-Ends, run_resume-Ends}
use agent_inbox_question.Cli.Main.Reports.{run_list-Keeps, run_show-Keeps, run_status-Keeps}

module _ (sh : Shell) (others : (m : ℕ) (db : Db) → Reach db (sh.env.others m db)) (rounds : ℕ)
    (start : Db) where
  worked-Ends :
      (app : App)
      → Reach start app.world.db
      → Ends (Reach start) (worked app (work_rounds sh.env rounds no_work app.world))
  worked-Ends app r =
      let (x, e, _, q) = work_rounds-IsTallied sh.env others rounds app.world in
      rw e (by_round x (Reach-trans r q))
    where
      by_round :
          (x : WorkRound) → Reach start (work_world x).db → Ends (Reach start) (worked app (some x))
      by_round (finished y k w) q = q
      by_round (more k w) q = q

  serve_with-Ends :
      (app : App) (x : Fallible (Duration × Duration))
      → Reach start app.world.db
      → Ends (Reach start) (serve_with sh rounds app x)
  serve_with-Ends app (err e) r = r
  serve_with-Ends app (ok (reset, scan)) r =
      let (x, e, q) =
        server_rounds-Reach (record sh.env { reset_interval = reset; has_output = false }) others
          (nanoseconds scan) rounds app.world in
      rw e (by_round x (Reach-trans r q))
    where
      by_round :
          (x : ServerRound)
          → Reach start (world_after x).db
          → Ends (Reach start) (served app (some x))
      by_round (stop y w) q = q
      by_round (again w) q = q

  run_serve-Ends :
      (args : List String) (app : App)
      → Reach start app.world.db
      → Ends (Reach start) (run_serve sh rounds args app)
  unfolding run_serve
  run_serve-Ends args app r =
      by_flags (sh.serve_flags (or_reset_interval sh.env.reset_interval) default_scan_interval args)
    where
      by_flags : (x : Fallible ServeFlags) → Ends (Reach start) (serve_flagged sh rounds app x)
      by_flags (err e) = r
      by_flags (ok flags) = elim (Bool-cases (flags.arguments == 0)) [
        | inl e ↦ rw e (serve_with-Ends app (new_server flags.reset_interval flags.scan_interval) r)
        | inr e ↦ rw e r
      ]

  -- The tables at the end of the process, or of its rounds so far.
  abbrev Leaves : Option Exit → Type 0
  Leaves none = ⊥
  Leaves (some (exited code app)) = Reach start app.world.db
  Leaves (some (unfinished app)) = Reach start app.world.db

  exit_of-Leaves : (c : Option Command) → Ends (Reach start) c → Leaves (exit_of sh rounds c)
  exit_of-Leaves none h = h
  exit_of-Leaves (some (ended x app)) h = h
  exit_of-Leaves (some (running app)) h = h

  dispatch-Leaves :
      (verb : Verb) (args : List String) (app : App)
      → Reach start app.world.db
      → Leaves (exit_after sh rounds app (dispatch sh rounds verb args app))
  dispatch-Leaves Verb.add args app r =
      exit_of-Leaves (some (run_add sh args app)) (run_add-Keeps sh others start args app r)
  dispatch-Leaves Verb.list args app r =
      exit_of-Leaves (some (run_list sh args app))
        (run_list-Keeps sh (Reach start) (pass-Reach sh.env others start) args app r)
  dispatch-Leaves Verb.show args app r =
      exit_of-Leaves (some (run_show sh args app))
        (run_show-Keeps sh (Reach start) (pass-Reach sh.env others start) args app r)
  dispatch-Leaves Verb.run args app r =
      exit_of-Leaves (run_run sh args app) (run_run-Ends sh others start args app r)
  dispatch-Leaves Verb.resume args app r =
      exit_of-Leaves (run_resume sh args app) (run_resume-Ends sh others start args app r)
  dispatch-Leaves Verb.work args app r =
      exit_of-Leaves (worked app (work_rounds sh.env rounds no_work app.world)) (worked-Ends app r)
  dispatch-Leaves Verb.status args app r =
      exit_of-Leaves (some (run_status sh app))
        (run_status-Keeps sh (Reach start) (pass-Reach sh.env others start) app r)
  dispatch-Leaves Verb.serve args app r =
      exit_of-Leaves (run_serve sh rounds args app) (run_serve-Ends args app r)
  dispatch-Leaves Verb.unknown args app r = r

abbrev pub app_of : Exit → App
app_of (exited code app) = app
app_of (unfinished app) = app

-- Whatever command the process is given, its run, for any number of rounds of a command's loop, is
-- there, and what it does to the tables is a sequence of the store's writes, when what the other
-- processes do between its operations is one.
pub run_main-Reach :
    (process : Process) (sh : Shell) (rounds : ℕ) (app : App)
    → ((m : ℕ) (db : Db) → Reach db (sh.env.others m db))
    → (x : Exit) × (run_main process sh rounds app ≡ some x)
      × Reach app.world.db (app_of x).world.db
unfolding run_main
run_main-Reach process sh rounds app others = left _ (by_default (reset_interval_from_env process))
  where
    start : Db
    start = app.world.db

    by_open :
        (d : Duration) (command : String) (args : List String) (x : Fallible (Unit {0}))
        → Leaves sh others rounds start (run_opened process sh rounds d command args app x)
    by_open d command args (err e) = here start
    by_open d command args (ok u) =
        dispatch-Leaves (with_interval sh d) others rounds start (verb_of command) args app
          (here start)

    by_args :
        (flags : GlobalFlags) (args : List String)
        → Leaves sh others rounds start (run_args process sh rounds flags args app)
    by_args flags [] = here start
    by_args flags (command ∷ args) = by_open flags.reset_interval command args _

    by_flags :
        (x : Result ℕ GlobalFlags)
        → Leaves sh others rounds start (run_flagged process sh rounds x app)
    by_flags (err code) = here start
    by_flags (ok flags) = by_args flags flags.args

    by_default :
        (x : Fallible Duration)
        → Leaves sh others rounds start (run_defaulted process sh rounds x app)
    by_default (err e) = here start
    by_default (ok d) = by_flags (process.flags d)

    left :
        (x : Option Exit)
        → Leaves sh others rounds start x
        → (y : Exit) × (x ≡ some y) × Reach start (app_of y).world.db
    left none h = absurd h
    left (some (exited code a)) h = (exited code a, refl, h)
    left (some (unfinished a)) h = (unfinished a, refl, h)
