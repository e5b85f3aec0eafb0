-- ===== src/Store/Continuations.antt =====
-- internal/store/continuation_repo.go: InitializeUnscheduled, Current and Stopped.
pub mod Laws
use agent_inbox_question.Base.{
  ℕ, String, Time, Duration, Bool, true, false, ◌&&◌, not, Option, none, some, List, if◌then◌else◌,
  ◌==◌, ltb, leb, ok, err,
}
use agent_inbox_question.Domain.Status.{
  TaskStatus, ExitReason, AttemptOutcome, ProviderWindowOrigin, is_running, is_stopped,
  is_no_continuation, same_task_status, same_exit_reason,
}
use agent_inbox_question.Domain.Errors.{Error, Fallible}
use agent_inbox_question.Domain.Continuation.{ContinuationDecision}
use agent_inbox_question.Domain.Completion.{
  AttemptCompletion, AttemptCompletionInput, decide_attempt_completion,
}
use agent_inbox_question.Store.Table.{count_where, update_where, find_where}
use agent_inbox_question.Store.Order.{order_by}
use agent_inbox_question.Store.Database.{TaskRow, Run, Db, Faults, SqlCall, sql_failure, latest_run}
use agent_inbox_question.Store.Selection.{rows_of, first_row, scan_row}

-- The row that the first query scans.
pub record Unscheduled : Type 0 where
  pub task_id : ℕ
  pub finished_at : Time
  pub tokens_used : ℕ

-- A failed task on which nothing was decided: what the query and the UPDATE ask of its columns.
abbrev pub is_none {ℓ} : {A : Type ℓ} → Option A → Bool
is_none none = true
is_none (some _) = false

abbrev pub is_undecided : TaskRow → Bool
is_undecided k =
    same_task_status k.status TaskStatus.failed
    && is_no_continuation k.auto_retry_state
    && is_none k.next_eligible_at

abbrev pub unscheduled_by : TaskRow → Run → Option Time → Option Unscheduled
unscheduled_by k r none = none
unscheduled_by k r (some at) =
    if is_undecided k && same_exit_reason r.exit_reason ExitReason.token_budget_exhausted
    then some (record { task_id = k.id; finished_at = at; tokens_used = r.tokens_used })
    else none

abbrev pub unscheduled_with : TaskRow → Option Run → Option Unscheduled
unscheduled_with k none = none
unscheduled_with k (some r) = unscheduled_by k r r.finished_at

unfoldable pub unscheduled : List Run → TaskRow → Option Unscheduled
unscheduled runs k = unscheduled_with k (latest_run k.id runs)

abbrev pub by_unscheduled_id : Unscheduled → Unscheduled → Bool
by_unscheduled_id u v = leb u.task_id v.task_id

unfoldable pub find_unscheduled : Faults → Db → Fallible Unscheduled
find_unscheduled fails db =
    scan_row fails (first_row by_unscheduled_id (rows_of (unscheduled db.runs) db.tasks))

abbrev pub unscheduled_input : Duration → Unscheduled → AttemptCompletionInput
unscheduled_input reset u = record {
  outcome = AttemptOutcome.token_exhausted;
  finished_at = u.finished_at;
  reset_interval = reset;
  progressed = ltb 0 u.tokens_used;
  window_origin = ProviderWindowOrigin.fresh;
}

pub record InitializedContinuation : Type 0 where
  pub task_id : ℕ
  pub continuation : ContinuationDecision

abbrev pub decided : ContinuationDecision → TaskRow → TaskRow
decided d k = record k {
  next_eligible_at = d.eligible_at;
  auto_retry_state = d.kind;
  auto_retry_reason = d.reason;
}

abbrev pub undecided_task : ℕ → TaskRow → Bool
undecided_task t k = k.id == t && is_undecided k

-- The UPDATE.
unfoldable pub initialize_with :
    Faults → ℕ → ContinuationDecision → Db → Db × Fallible InitializedContinuation
initialize_with fails t d db =
    let db' = record db { tasks = update_where (undecided_task t) (decided d) db.tasks } in
    if fails SqlCall.first_exec
    then (db, err sql_failure)
    else if fails SqlCall.first_count
    then (db', err sql_failure)
    else if not (count_where (undecided_task t) db.tasks == 1)
    then (db', err Error.conflict)
    else (db', ok (record { task_id = t; continuation = d }))

abbrev pub initialize_decided :
    Faults → ℕ → Db → Fallible AttemptCompletion → Db × Fallible InitializedContinuation
initialize_decided fails t db (err e) = (db, err e)
initialize_decided fails t db (ok c) = initialize_with fails t c.continuation db

abbrev pub initialize_found :
    Faults → Duration → Db → Fallible Unscheduled → Db × Fallible InitializedContinuation
initialize_found fails reset db (err e) = (db, err e)
initialize_found fails reset db (ok u) =
    initialize_decided fails u.task_id db (decide_attempt_completion (unscheduled_input reset u))

unfoldable pub initialize_unscheduled :
    Faults → Duration → Db → Db × Fallible InitializedContinuation
initialize_unscheduled fails reset db = initialize_found fails reset db (find_unscheduled fails db)

-- Current: the running attempt of the least id, with its task. Its lease is never NULL there; the
-- scan of a NULL into a string fails.
pub record RunningAttempt : Type 0 where
  pub task_id : ℕ
  pub task_title : String
  pub run_id : ℕ
  pub lease_expires_at : Time

abbrev pub joined : Run → Option TaskRow → Option (Run × TaskRow)
joined r none = none
joined r (some k) = some (r, k)

unfoldable pub running_row : List TaskRow → Run → Option (Run × TaskRow)
running_row tasks r =
    if is_running r.status then joined r (find_where (λ k. k.id == r.task_id) tasks) else none

abbrev pub by_running_id : Run × TaskRow → Run × TaskRow → Bool
by_running_id (r, k) (q, l) = leb r.id q.id

abbrev pub scan_lease : Run → TaskRow → Option Time → Fallible RunningAttempt
scan_lease r k none = err (Error.failure "scan current attempt")
scan_lease r k (some at) =
    ok (record { task_id = k.id; task_title = k.title; run_id = r.id; lease_expires_at = at })

abbrev pub scan_running : Fallible (Run × TaskRow) → Fallible RunningAttempt
scan_running (err e) = err e
scan_running (ok (r, k)) = scan_lease r k r.lease_expires_at

unfoldable pub current : Faults → Db → Fallible RunningAttempt
current fails db =
    scan_running (scan_row fails (first_row by_running_id (rows_of (running_row db.tasks) db.runs)))

pub record StoppedContinuation : Type 0 where
  pub task_id : ℕ
  pub reason : String

unfoldable pub stopped_row : TaskRow → Option StoppedContinuation
stopped_row k =
    if same_task_status k.status TaskStatus.failed && is_stopped k.auto_retry_state
    then some (record { task_id = k.id; reason = k.auto_retry_reason })
    else none

abbrev pub by_stopped_id : StoppedContinuation → StoppedContinuation → Bool
by_stopped_id c d = leb c.task_id d.task_id

unfoldable pub stopped : Faults → Db → Fallible (List StoppedContinuation)
stopped fails db =
    if fails SqlCall.conflict_query
    then err sql_failure
    else ok (order_by by_stopped_id (rows_of stopped_row db.tasks))
