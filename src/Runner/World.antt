-- ===== src/Runner/World.antt =====
-- What surrounds a process: the database that it shares with others, and everything that it does
-- not decide, indexed by the moment at which it happens.
use agent_inbox_question.Base.{ℕ, ◌+◌, String, Time, Duration, Bool, Option}
use agent_inbox_question.Domain.Errors.{Fallible}
use agent_inbox_question.Agent.Session.{SessionState, Json}
use agent_inbox_question.Store.Database.{Db, SqlDates, Faults}

-- `deps` and its options: SQLite's clock and the process's own, the calls that the driver refuses,
-- what other processes commit between two operations, whether the ticker of renewLease fires,
-- whether the caller's context has ended, the writes of the session file and of the output, the
-- session files that are loaded, the random ids and owner tokens, `%q`, and the ends of a wait.
pub record Env : Type 0 where
  pub dates : SqlDates
  pub json : Json
  pub no_delay : Bool
  pub cancel_text : String
  pub lease_duration : Duration
  pub reset_interval : Duration
  pub has_output : Bool
  pub sql_now : ℕ → Time
  pub clock : ℕ → Time
  pub fails : ℕ → Faults
  pub others : ℕ → Db → Db
  pub renews : ℕ → Bool
  pub done : ℕ → Bool
  pub files : ℕ → Fallible (Unit {0})
  pub loads : ℕ → String → Fallible SessionState
  pub ids : ℕ → Option String
  pub tokens : ℕ → Option String
  pub quote : String → String
  pub waits : ℕ → ℕ → Fallible (Unit {0})
  pub prints : ℕ → Bool

pub record World : Type 0 where
  pub db : Db
  pub moment : ℕ

-- The others act, and a moment passes.
unfoldable pub pass : Env → World → World
pass env w = record { db = env.others w.moment w.db; moment = w.moment + 1 }

abbrev pub put_db : World → Db → World
put_db w db = record w { db = db }
