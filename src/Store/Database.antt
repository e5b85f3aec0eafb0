-- ===== src/Store/Database.antt =====
-- internal/store/migrations.go and db.go: the tables after the last migration, a database handle
-- with the transaction that is open on it, and what SQLite decides: its dates, the order of stored
-- timestamps as text, and which calls fail.
use agent_inbox_question.Base.{
  ℕ, String, Time, Duration, Bool, true, false, ◌&&◌, Option, none, some, List, [], ◌∷◌,
  if◌then◌else◌, ◌==◌, leb, ltb, err,
}
use agent_inbox_question.Domain.Status.{
  TaskStatus, RunStatus, ExitReason, ContinuationKind, is_running,
}
use agent_inbox_question.Domain.Errors.{Error, Fallible}

pub record TaskRow : Type 0 where
  pub id : ℕ
  pub title : String
  pub description : String
  pub status : TaskStatus
  pub created_at : Time
  pub updated_at : Time
  pub next_eligible_at : Option Time
  pub auto_retry_state : ContinuationKind
  pub auto_retry_reason : String

-- `domain.Run`, and the columns of `runs` under the same names.
pub record Run : Type 0 where
  pub id : ℕ
  pub task_id : ℕ
  pub session_id : String
  pub status : RunStatus
  pub exit_reason : ExitReason
  pub output : String
  pub tokens_used : ℕ
  pub token_budget : ℕ
  pub error : String
  pub started_at : Time
  pub finished_at : Option Time
  pub owner_token : String
  pub lease_expires_at : Option Time
  pub start_step : ℕ
  pub session_checkpoint : String

pub record Comment : Type 0 where
  pub id : ℕ
  pub task_id : ℕ
  pub author : String
  pub body : String
  pub created_at : Time

-- The tables, newest row first, and the greatest id that each has given out.
pub record Db : Type 0 where
  pub tasks : List TaskRow
  pub runs : List Run
  pub comments : List Comment
  pub task_seq : ℕ
  pub run_seq : ℕ
  pub comment_seq : ℕ

-- The committed tables, and those of an open transaction.
pub record Handle : Type 0 where
  pub committed : Db
  pub pending : Option Db

abbrev pub at_rest : Db → Handle
at_rest db = record { committed = db; pending = none }

-- `rollback(cause)`: the transaction is given up and the cause is the result.
abbrev pub rollback {ℓ} : {A : Type ℓ} → Db → Error → Handle × Fallible A
rollback db cause = (at_rest db, err cause)

-- SQLite's `julianday`, the instant that `strftime('%Y-%m-%dT%H:%M:%fZ', t, '+d seconds')` writes,
-- and `<=` on timestamps that are stored as text.
pub record SqlDates : Type 0 where
  pub julianday : Time → ℕ
  pub time_after : Time → Duration → Time
  pub text_le : Time → Time → Bool

-- The calls of the driver that a method makes, in the order in which it makes them.
pub data SqlCall : Type 0 where
  begin_tx first_exec first_count conflict_query second_exec second_count insert last_id commit_tx :
      SqlCall

-- Which calls the driver refuses.
abbrev pub Faults : Type 0
Faults = SqlCall → Bool

abbrev pub sql_failure : Error
sql_failure = Error.failure "sql"

abbrev pub no_faults : Faults
no_faults _ = false

module _ (dates : SqlDates) (now : Time) where
  -- `julianday(lease_expires_at) > julianday('now')`; a comparison with NULL does not hold.
  unfoldable pub lease_live : Option Time → Bool
  lease_live none = false
  lease_live (some at) = ltb (dates.julianday now) (dates.julianday at)

  -- `julianday(lease_expires_at) <= julianday('now')`.
  unfoldable pub lease_expired : Option Time → Bool
  lease_expired none = false
  lease_expired (some at) = leb (dates.julianday at) (dates.julianday now)

-- `SELECT ... FROM runs WHERE task_id = ? ORDER BY id DESC LIMIT 1`.
abbrev newer : Run → Option Run → Option Run
newer r none = some r
newer r (some q) = if leb q.id r.id then some r else some q

unfoldable pub latest_run : ℕ → List Run → Option Run
latest_run t [] = none
latest_run t (r ∷ rs) = let rest = latest_run t rs in if r.task_id == t then newer r rest else rest

-- `COALESCE((SELECT MAX(id) ...), 0)`.
abbrev pub id_or_zero : Option Run → ℕ
id_or_zero none = 0
id_or_zero (some r) = r.id

abbrev pub runs_of : ℕ → Run → Bool
runs_of t r = r.task_id == t

abbrev pub is_in_progress : TaskStatus → Bool
is_in_progress TaskStatus.in_progress = true
is_in_progress _ = false

-- The running attempts of a task, and its rows that are in progress.
abbrev pub runs_for : ℕ → Run → Bool
runs_for t r = r.task_id == t && is_running r.status

abbrev pub claims_for : ℕ → TaskRow → Bool
claims_for t k = k.id == t && is_in_progress k.status
