-- ===== src/Store/Progress.antt =====
-- internal/store/attempt_repo.go: UpdateProgress and RenewLease, the fenced writes of a running
-- attempt.
use agent_inbox_question.Base.{
  ℕ, String, Time, Duration, is_positive, Bool, ◌&&◌, not, some, if◌then◌else◌, ◌==◌, str_eq, ok,
  err,
}
use agent_inbox_question.Domain.Status.{is_running}
use agent_inbox_question.Domain.Errors.{Error, Fallible}
use agent_inbox_question.Store.Table.{count_where, update_where}
use agent_inbox_question.Store.Database.{
  Run, Db, SqlDates, Faults, SqlCall, sql_failure, lease_live,
}

pub record AttemptProgress : Type 0 where
  pub run_id : ℕ
  pub owner_token : String
  pub output : String
  pub tokens_used : ℕ
  pub checkpoint : String

-- The columns that UpdateProgress sets, and the one that RenewLease sets.
abbrev pub publish : AttemptProgress → Run → Run
publish progress r = record r {
  output = progress.output;
  tokens_used = progress.tokens_used;
  session_checkpoint = progress.checkpoint;
}

abbrev pub renewed : Time → Run → Run
renewed at r = record r { lease_expires_at = some at }

module _ (dates : SqlDates) (now : Time) where
  -- `id = ? AND status = 'running' AND owner_token = ? AND` the lease is live.
  unfoldable pub owns : ℕ → String → Run → Bool
  unfolding lease_live
  owns id owner r =
      r.id == id
      && is_running r.status
      && str_eq r.owner_token owner
      && lease_live dates now r.lease_expires_at

  unfoldable pub update_progress : Faults → AttemptProgress → Db → Db × Fallible (Unit {0})
  update_progress fails progress db =
      let fits = owns progress.run_id progress.owner_token in
      let db' = record db { runs = update_where fits (publish progress) db.runs } in
      if fails SqlCall.first_exec
      then (db, err sql_failure)
      else if fails SqlCall.first_count
      then (db', err sql_failure)
      else if not (count_where fits db.runs == 1)
      then (db', err Error.lease_lost)
      else (db', ok tt)

  -- The new expiry is SQLite's own time plus the duration.
  unfoldable pub renew_lease : Faults → ℕ → String → Duration → Db → Db × Fallible (Unit {0})
  renew_lease fails id owner duration db =
      let fits = owns id owner in
      let db' = record db {
        runs = update_where fits (renewed (dates.time_after now duration)) db.runs;
      } in
      if not (is_positive duration)
      then (db, err (Error.failure "attempt lease duration must be positive"))
      else if fails SqlCall.first_exec
      then (db, err sql_failure)
      else if fails SqlCall.first_count
      then (db', err sql_failure)
      else if not (count_where fits db.runs == 1)
      then (db', err Error.lease_lost)
      else (db', ok tt)
