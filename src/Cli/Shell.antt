-- ===== src/Cli/Shell.antt =====
-- internal/cli/helpers.go: App, and what its commands use besides: what surrounds the process, the
-- writer on standard output, and the parsers and formats of Go's library.
use agent_inbox_question.Base.{
  ℕ, String, Time, ℤ, pos, negsuc, Duration, Bool, Option, none, some, List, [], ◌∷◌, ok, err,
}
use agent_inbox_question.Domain.Errors.{Error, Fallible}
use agent_inbox_question.Runner.World.{Env, World}
use agent_inbox_question.Cli.Print.{Console, Printer, new_output_printer, print_error}

-- The flags of `serve`, and how many arguments are left behind them.
pub record ServeFlags : Type 0 where
  pub reset_interval : Duration
  pub scan_interval : Duration
  pub arguments : ℕ

pub record Shell : Type 0 where
  pub env : Env
  pub accepts : ℕ → Bool
  pub parse_int : String → Option ℤ
  pub list_flags : List String → Fallible String
  pub serve_flags : Duration → Duration → List String → Fallible ServeFlags
  pub days : ℕ → ℕ
  pub rfc3339 : Time → String

pub record App : Type 0 where
  pub world : World
  pub console : Console

-- A command ends with its error or none, or it is in its loop still.
pub data Command : Type 0 where
  ended : Fallible (Unit {0}) → App → Command
  running : App → Command

-- No row has an id below 1.
abbrev pub row_id : ℤ → ℕ
row_id (pos n) = n
row_id (negsuc n) = 0

-- `strconv.ParseInt` of the first argument.
abbrev pub parsed_id : Option ℤ → Fallible ℕ
parsed_id none = err (Error.failure "invalid task id")
parsed_id (some i) = ok (row_id i)

abbrev pub first_id : Shell → List String → Fallible ℕ
first_id sh [] = err (Error.failure "usage")
first_id sh (a ∷ args) = parsed_id (sh.parse_int a)

-- A printer on the console of a command, and the end of a command that printed.
abbrev pub printer : App → Printer
printer app = new_output_printer app.console

abbrev pub leave : Fallible (Unit {0}) → World → Printer → Command
leave r w p = ended r (record { world = w; console = p.console })

abbrev pub leave_printed : World → Printer → Command
leave_printed w p = leave (print_error p) w p
