-- ===== src/Cli/Print.antt =====
-- internal/cli/helpers.go: the printer that keeps its first error, and relativeTime. A console is an
-- `io.Writer`: what it has taken, and how often it was asked; `accepts` says which writes succeed.
pub mod Laws
use agent_inbox_question.Base.{
  ℕ, suc, ◌-◌, ◌/◌, String, ◌<>◌, Time, Bool, false, not, List, [], ◌∷◌, ◌++◌, if◌then◌else◌, ◌==◌,
  ltb, ok, err,
}
use agent_inbox_question.Base.Text.{itoa}
use agent_inbox_question.Domain.Errors.{Error, Fallible}

pub record Console : Type 0 where
  pub written : List String
  pub writes : ℕ

pub record Printer : Type 0 where
  pub console : Console
  pub failed : Bool

abbrev pub new_output_printer : Console → Printer
new_output_printer c = record { console = c; failed = false }

abbrev pub write_error : Error
write_error = Error.failure "write output"

-- Err.
abbrev pub print_error : Printer → Fallible (Unit {0})
print_error p = if p.failed then err write_error else ok tt

module _ (accepts : ℕ → Bool) where
  -- A write takes the whole text or fails.
  unfoldable pub write : String → Console → Console
  write text c = record {
    written = if accepts c.writes then c.written ++ text ∷ [] else c.written;
    writes = suc c.writes;
  }

  -- `fmt.Fprint` on the writer itself.
  abbrev pub fprint : String → Console → Fallible (Unit {0}) × Console
  fprint text c = (if accepts c.writes then ok tt else err write_error, write text c)

  -- Printf and Println: nothing is written once a write has failed.
  unfoldable pub printf : String → Printer → Printer
  unfolding write
  printf text p =
      if p.failed
      then p
      else record { console = write text p.console; failed = not (accepts p.console.writes) }

  abbrev pub println : String → Printer → Printer
  println text = printf (text <> "\n")

  -- Texts one after the other.
  unfoldable pub print_all : List String → Printer → Printer
  print_all [] p = p
  print_all (t ∷ ts) p = print_all ts (printf t p)

-- `"1 minute ago"`, or a number of them.
abbrev pub ago : ℕ → String → String
ago n unit' = if n == 1 then "1 " <> unit' <> " ago" else itoa n <> " " <> unit' <> "s ago"

-- `days` is `math.Floor(d.Hours() / 24)`, on floats; those of minutes and hours are exact below a
-- day. A time that is still to come is now.
unfoldable pub relative_time : (ℕ → ℕ) → Time → Time → String
relative_time days now t =
    let d = now - t in
    if ltb d 60_000_000_000
    then "just now"
    else if ltb d 3_600_000_000_000
    then ago (d / 60_000_000_000) "minute"
    else if ltb d 86_400_000_000_000
    then ago (d / 3_600_000_000_000) "hour"
    else ago (days d) "day"
