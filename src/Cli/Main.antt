-- ===== src/Cli/Main.antt =====
-- cmd/agent-inbox/main.go: the process, from its arguments to its exit code. What is written on
-- standard error is left out.
pub mod Keeps
pub mod Reports
pub mod Laws
use agent_inbox_question.Base.{
  ℕ, String, ◌<>◌, Duration, Option, none, some, List, [], ◌∷◌, is_positive, if◌then◌else◌, str_eq,
  Result, ok, err,
}
use agent_inbox_question.Domain.Errors.{Error, Fallible}
use agent_inbox_question.Cli.Shell.{Shell, App, Command, ended, running}
use agent_inbox_question.Cli.Add.{run_add, run_run, run_resume}
use agent_inbox_question.Cli.List.{run_list}
use agent_inbox_question.Cli.Show.{run_show}
use agent_inbox_question.Cli.Status.{run_status}
use agent_inbox_question.Cli.Serve.{run_serve, default_reset_interval}
use agent_inbox_question.Cli.Work.{WorkRound, finished, more, no_work, work_rounds}

-- What `flag.Parse` gives of the command line.
pub record GlobalFlags : Type 0 where
  pub data_dir : String
  pub reset_interval : Duration
  pub args : List String

-- The environment's variables, the home directory, `time.ParseDuration`, what NewApp answers, and
-- the parser of flags, which ends the process with a code of its own where it fails.
pub record Process : Type 0 where
  pub reset_variable : String
  pub data_dir_variable : String
  pub home : Option String
  pub parse_duration : String → Option Duration
  pub flags : Duration → Result ℕ GlobalFlags
  pub open_app : String → Fallible (Unit {0})

abbrev pub positive_interval : Option Duration → Fallible Duration
positive_interval none = err (Error.failure "parse AGENT_INBOX_RESET_INTERVAL")
positive_interval (some d) =
    if is_positive d
    then ok d
    else err (Error.failure "AGENT_INBOX_RESET_INTERVAL must be positive")

unfoldable pub reset_interval_from_env : Process → Fallible Duration
reset_interval_from_env process =
    if str_eq process.reset_variable ""
    then ok default_reset_interval
    else positive_interval (process.parse_duration process.reset_variable)

abbrev pub home_dir : Option String → String
home_dir none = ".agent-inbox"
home_dir (some home) = home <> "/.agent-inbox"

unfoldable pub resolve_data_dir : Process → String → String
resolve_data_dir process flag_value =
    if str_eq flag_value ""
    then if str_eq process.data_dir_variable ""
      then home_dir process.home
      else process.data_dir_variable
    else flag_value

-- The cases of the switch on the command.
pub data Verb : Type 0 where
  add list show run resume work status serve unknown : Verb

unfoldable pub verb_of : String → Verb
verb_of command =
    if str_eq command "add"
    then Verb.add
    else if str_eq command "list"
    then Verb.list
    else if str_eq command "show"
    then Verb.show
    else if str_eq command "run"
    then Verb.run
    else if str_eq command "resume"
    then Verb.resume
    else if str_eq command "work"
    then Verb.work
    else if str_eq command "status"
    then Verb.status
    else if str_eq command "serve"
    then Verb.serve
    else Verb.unknown

-- The process exits with a code, or it is in its loop still.
pub data Exit : Type 0 where
  exited : ℕ → App → Exit
  unfinished : App → Exit

abbrev pub worked : App → Option WorkRound → Option Command
worked app none = none
worked app (some (finished r k w)) = some (ended r (record app { world = w }))
worked app (some (more k w)) = some (running (record app { world = w }))

module _ (sh : Shell) (rounds : ℕ) where
  -- Nothing where there is no such command.
  abbrev pub dispatch : Verb → List String → App → Option (Option Command)
  dispatch Verb.add args app = some (some (run_add sh args app))
  dispatch Verb.list args app = some (some (run_list sh args app))
  dispatch Verb.show args app = some (some (run_show sh args app))
  dispatch Verb.run args app = some (run_run sh args app)
  dispatch Verb.resume args app = some (run_resume sh args app)
  dispatch Verb.work args app = some (worked app (work_rounds sh.env rounds no_work app.world))
  dispatch Verb.status args app = some (some (run_status sh app))
  dispatch Verb.serve args app = some (run_serve sh rounds args app)
  dispatch Verb.unknown args app = none

  abbrev pub exit_code : Fallible (Unit {0}) → App → ℕ
  exit_code (err e) app = 1
  exit_code (ok _) app = if sh.env.done app.world.moment then 130 else 0

  abbrev pub exit_of : Option Command → Option Exit
  exit_of none = none
  exit_of (some (ended r app)) = some (exited (exit_code r app) app)
  exit_of (some (running app)) = some (unfinished app)

  abbrev pub exit_after : App → Option (Option Command) → Option Exit
  exit_after app none = some (exited 1 app)
  exit_after app (some c) = exit_of c

abbrev pub with_interval : Shell → Duration → Shell
with_interval sh d = record sh { env = record sh.env { reset_interval = d } }

module _ (process : Process) (sh : Shell) (rounds : ℕ) where
  abbrev pub run_opened : Duration → String → List String → App → Fallible (Unit {0}) → Option Exit
  run_opened d command args app (err e) = some (exited 1 app)
  run_opened d command args app (ok _) =
      exit_after (with_interval sh d) rounds app
        (dispatch (with_interval sh d) rounds (verb_of command) args app)

  abbrev pub run_args : GlobalFlags → List String → App → Option Exit
  run_args flags [] app = some (exited 1 app)
  run_args flags (command ∷ args) app =
      run_opened flags.reset_interval command args app
        (process.open_app (resolve_data_dir process flags.data_dir))

  abbrev pub run_flagged : Result ℕ GlobalFlags → App → Option Exit
  run_flagged (err code) app = some (exited code app)
  run_flagged (ok flags) app = run_args flags flags.args app

  abbrev pub run_defaulted : Fallible Duration → App → Option Exit
  run_defaulted (err e) app = some (exited 1 app)
  run_defaulted (ok d) app = run_flagged (process.flags d) app

  -- The process, at most `rounds` rounds into a loop of its command.
  unfoldable pub run_main : App → Option Exit
  unfolding verb_of resolve_data_dir
  run_main app = run_defaulted (reset_interval_from_env process) app
