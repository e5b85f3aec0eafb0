-- ===== src/Cli/Serve.antt =====
-- internal/cli/serve.go: RunServe, for a number of rounds of the server's loop.
use agent_inbox_question.Base.{
  ℕ, String, pos, negsuc, Duration, not, Option, none, some, List, is_positive, if◌then◌else◌,
  false, ◌==◌, ok, err,
}
use agent_inbox_question.Domain.Errors.{Error, Fallible}
use agent_inbox_question.Server.{ServerRound, stop, again, server_rounds, new_server}
use agent_inbox_question.Cli.Shell.{Shell, App, ServeFlags, Command, ended, running}

-- DefaultResetInterval of the runner and the scan interval's default.
abbrev pub default_reset_interval : Duration
default_reset_interval = pos 30_000_000_000

abbrev pub default_scan_interval : Duration
default_scan_interval = pos 1_000_000_000

abbrev pub nanoseconds : Duration → ℕ
nanoseconds (pos n) = n
nanoseconds (negsuc n) = 0

abbrev pub or_reset_interval : Duration → Duration
or_reset_interval d = if is_positive d then d else default_reset_interval

abbrev pub served : App → Option ServerRound → Option Command
served app none = none
served app (some (stop r w)) = some (ended r (record app { world = w }))
served app (some (again w)) = some (running (record app { world = w }))

module _ (sh : Shell) (rounds : ℕ) where
  -- The server waits for its reset interval with every attempt that it resumes, and gives the runner
  -- no output.
  abbrev pub serve_with : App → Fallible (Duration × Duration) → Option Command
  serve_with app (err e) = some (ended (err e) app)
  serve_with app (ok (reset, scan)) = served app (
      server_rounds (record sh.env { reset_interval = reset; has_output = false })
        (nanoseconds scan) rounds app.world)

  abbrev pub serve_flagged : App → Fallible ServeFlags → Option Command
  serve_flagged app (err e) = some (ended (err e) app)
  serve_flagged app (ok flags) =
      if not (flags.arguments == 0)
      then some (ended (err (Error.failure "usage")) app)
      else serve_with app (new_server flags.reset_interval flags.scan_interval)

  unfoldable pub run_serve : List String → App → Option Command
  run_serve args app =
      serve_flagged app
        (sh.serve_flags (or_reset_interval sh.env.reset_interval) default_scan_interval args)
