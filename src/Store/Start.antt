-- ===== src/Store/Start.antt =====
-- internal/store/attempt_repo.go: startOwnedAttempt, which claims a task and inserts the run that
-- owns the claim in one transaction, with its callers.
mod Claim
pub mod Laws
pub mod Eligible
unfoldable pub use Claim.*
use agent_inbox_question.Base.{
  ℕ, suc, String, Time, Duration, pos, is_positive, Bool, true, false, ◌&&◌, ◌||◌, not, Option,
  none, some, List, ◌∷◌, if◌then◌else◌, ◌==◌, ltb, ok, err,
}
use agent_inbox_question.Domain.Status.{TaskStatus, same_task_status, is_stopped}
use agent_inbox_question.Domain.Errors.{Error, Fallible}
use agent_inbox_question.Domain.Transition.{transition}
use agent_inbox_question.Store.Table.{count_where, update_where, find_where}
use agent_inbox_question.Store.Database.{
  TaskRow, Run, Db, Handle, at_rest, rollback, SqlDates, Faults, SqlCall, sql_failure, latest_run,
  id_or_zero,
}

abbrev pub is_owner_start : StartAuthorization → Bool
is_owner_start StartAuthorization.owner_start = true
is_owner_start _ = false

abbrev pub is_after : Option Time → Time → Bool
is_after none at = false
is_after (some t) at = ltb at t

-- The error for a task that was not claimed.
unfoldable pub claim_error :
    StartAuthorization → StartAttemptParams → Time → List Run → Option TaskRow → Error
claim_error authorization params at runs none = Error.not_found
claim_error authorization params at runs (some k) =
    let observed_run_id = id_or_zero (latest_run params.task_id runs) in
    let same =
      same_task_status params.expected_status TaskStatus.failed
      && same_task_status k.status params.expected_status
      && observed_run_id == params.expected_run_id in
    if not (is_owner_start authorization)
    then Error.conflict
    else if same && is_stopped k.auto_retry_state
    then Error.not_eligible
    else if same && is_after k.next_eligible_at at
    then Error.not_eligible
    else Error.task_status_conflict (record {
      task_id = params.task_id;
      expected = params.expected_status;
      observed = k.status;
      expected_run_id = params.expected_run_id;
      observed_run_id = observed_run_id;
    })

-- From the INSERT on; `w` holds the claimed task.
unfoldable pub insert_run :
    Faults → StartAttemptParams → Time → String → Db → Db → Handle × Fallible Run
insert_run fails params at token db w =
    let run = started_run params at token (suc w.run_seq) in
    let w' = record w { runs = run ∷ w.runs; run_seq = suc w.run_seq } in
    if fails SqlCall.insert
    then rollback db sql_failure
    else if fails SqlCall.last_id
    then rollback db sql_failure
    else if fails SqlCall.commit_tx
    then rollback db sql_failure
    else (at_rest w', ok run)

unfoldable pub start_tx :
    SqlDates
    → Faults
    → StartAuthorization
    → StartAttemptParams
    → Time
    → String
    → Db
    → Handle × Fallible Run
start_tx dates fails authorization params at token db =
    let fits = claims dates at authorization params db.runs in
    let w = record db { tasks = update_where fits (claimed_task at) db.tasks } in
    let observed = find_where (λ k. k.id == params.task_id) w.tasks in
    if fails SqlCall.begin_tx
    then (at_rest db, err sql_failure)
    else if fails SqlCall.first_exec
    then rollback db sql_failure
    else if fails SqlCall.first_count
    then rollback db sql_failure
    else if not (count_where fits db.tasks == 1)
    then (if fails SqlCall.conflict_query
        then rollback db sql_failure
        else rollback db (claim_error authorization params at db.runs observed))
    else insert_run fails params at token db w

abbrev pub start_time : Time → Time → Time
start_time clock at = if at == 0 then clock else at

unfoldable pub start_with_token :
    SqlDates
    → Faults
    → Time
    → StartAuthorization
    → StartAttemptParams
    → Db
    → Option String
    → Handle × Fallible Run
start_with_token dates fails clock authorization params db none =
    (at_rest db, err (Error.failure "generate attempt owner token"))
start_with_token dates fails clock authorization params db (some token) =
    start_tx dates fails authorization params (start_time clock params.started_at) token db

unfoldable pub start_checked :
    SqlDates
    → Faults
    → Time
    → Option String
    → StartAuthorization
    → StartAttemptParams
    → Db
    → Fallible (Unit {0})
    → Handle × Fallible Run
start_checked dates fails clock token authorization params db (err e) = (at_rest db, err e)
start_checked dates fails clock token authorization params db (ok _) =
    if not (is_positive params.lease_duration)
    then (at_rest db, err (Error.failure "attempt lease duration must be positive"))
    else start_with_token dates fails clock authorization params db token

-- `token` is what `generateOwnerToken` gives, nothing where the random source fails; `clock` is
-- `time.Now()`.
unfoldable pub start_authorized :
    SqlDates
    → Faults
    → Time
    → Option String
    → StartAuthorization
    → StartAttemptParams
    → Db
    → Handle × Fallible Run
start_authorized dates fails clock token authorization params db =
    start_checked dates fails clock token authorization params db
      (transition params.expected_status TaskStatus.in_progress)

unfoldable pub start_owned_attempt :
    SqlDates → Faults → Time → Option String → StartAttemptParams → Db → Handle × Fallible Run
start_owned_attempt dates fails clock token =
    start_authorized dates fails clock token StartAuthorization.owner_start

abbrev pub no_failed_run : StartAttemptParams → Bool
no_failed_run params =
    not (same_task_status params.expected_status TaskStatus.failed) || params.expected_run_id == 0

unfoldable pub start_automatic_attempt :
    SqlDates → Faults → Time → Option String → StartAttemptParams → Db → Handle × Fallible Run
start_automatic_attempt dates fails clock token params db =
    if no_failed_run params
    then (at_rest db, err (Error.failure "automatic attempt requires an expected failed run"))
    else start_authorized dates fails clock token StartAuthorization.automatic_start params db

unfoldable pub start_interrupted_attempt :
    SqlDates → Faults → Time → Option String → StartAttemptParams → Db → Handle × Fallible Run
start_interrupted_attempt dates fails clock token params db =
    if no_failed_run params
    then (at_rest db, err (Error.failure "interrupted attempt requires an expected failed run"))
    else start_authorized dates fails clock token StartAuthorization.interrupted_start params db

-- 30 seconds.
abbrev default_attempt_lease : Duration
default_attempt_lease = pos 30_000_000_000

-- StartAttempt, at the instant `now` of `time.Now()`.
unfoldable start_attempt :
    SqlDates
    → Faults
    → Time
    → Option String
    → ℕ
    → TaskStatus
    → ℕ
    → String
    → ℕ
    → Db
    → Handle × Fallible Run
start_attempt dates fails now token task_id expected_status expected_run_id session_id budget =
    start_owned_attempt dates fails now token (record {
      task_id = task_id;
      expected_status = expected_status;
      expected_run_id = expected_run_id;
      session_id = session_id;
      token_budget = budget;
      start_step = 0;
      started_at = now;
      lease_duration = default_attempt_lease;
    })
