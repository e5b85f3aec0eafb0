-- ===== src/Store/Finish.antt =====
-- internal/store/attempt_repo.go: FinishAttempt and RecoverExpiredAttempt, which finalize a run,
-- move its task and record a comment in one transaction.
pub mod Laws
use agent_inbox_question.Base.{
  ℕ, suc, String, Time, Bool, ◌&&◌, not, some, ◌∷◌, if◌then◌else◌, ◌==◌, str_eq, ok, err,
}
use agent_inbox_question.Domain.Status.{is_running}
use agent_inbox_question.Domain.Errors.{Error, Fallible}
use agent_inbox_question.Domain.Completion.{AttemptCompletion, TerminalAttemptState, terminal_state}
use agent_inbox_question.Store.Table.{count_where, update_where}
use agent_inbox_question.Store.Database.{
  TaskRow, Run, Comment, Db, Handle, at_rest, rollback, SqlDates, Faults, SqlCall, sql_failure,
  lease_live, lease_expired, is_in_progress,
}

pub record FinishAttemptParams : Type 0 where
  pub run_id : ℕ
  pub task_id : ℕ
  pub owner_token : String
  pub output : String
  pub tokens_used : ℕ
  pub error : String
  pub comment_author : String
  pub comment_body : String
  pub finished_at : Time
  pub session_checkpoint : String
  pub completion : AttemptCompletion

-- A condition on the run, put behind the others of the WHERE clause.
abbrev pub FinishAuthorization : Type 0
FinishAuthorization = FinishAttemptParams → Run → Bool

module _ (dates : SqlDates) (now : Time) where
  unfoldable pub owner_finish_authorization : FinishAuthorization
  unfolding lease_live
  owner_finish_authorization params r =
      str_eq r.owner_token params.owner_token && lease_live dates now r.lease_expires_at

  unfoldable pub expired_finish_authorization : FinishAuthorization
  unfolding lease_expired
  expired_finish_authorization params r = lease_expired dates now r.lease_expires_at

-- The two UPDATE statements: which row each fits, and what it writes.
unfoldable pub finishes : FinishAuthorization → FinishAttemptParams → Run → Bool
finishes authorize params r =
    r.id == params.run_id
    && r.task_id == params.task_id
    && is_running r.status
    && authorize params r

abbrev pub finished_run : TerminalAttemptState → FinishAttemptParams → Time → Run → Run
finished_run state params at r = record r {
  status = state.run_status;
  exit_reason = state.exit_reason;
  output = params.output;
  tokens_used = params.tokens_used;
  error = params.error;
  finished_at = some at;
  session_checkpoint = params.session_checkpoint;
}

abbrev pub finished_task : TerminalAttemptState → FinishAttemptParams → Time → TaskRow → TaskRow
finished_task state params at k = record k {
  status = state.task_status;
  updated_at = at;
  next_eligible_at = params.completion.continuation.eligible_at;
  auto_retry_state = params.completion.continuation.kind;
  auto_retry_reason = params.completion.continuation.reason;
}

abbrev pub in_progress_task : ℕ → TaskRow → Bool
in_progress_task t k = k.id == t && is_in_progress k.status

abbrev pub with_comment : FinishAttemptParams → Time → Db → Db
with_comment params at w = record w {
  comments = comment ∷ w.comments;
  comment_seq = suc w.comment_seq;
}
  where
    comment : Comment
    comment = record {
      id = suc w.comment_seq;
      task_id = params.task_id;
      author = params.comment_author;
      body = params.comment_body;
      created_at = at;
    }

-- A COMMIT that fails is taken to write nothing: database/sql has closed the transaction by then, and
-- the deferred Rollback answers ErrTxDone.
unfoldable pub commit_finish : Faults → Db → Db → Handle × Fallible (Unit {0})
commit_finish fails db w =
    if fails SqlCall.commit_tx then rollback db sql_failure else (at_rest w, ok tt)

unfoldable pub finish_comment :
    Faults → FinishAttemptParams → Time → Db → Db → Handle × Fallible (Unit {0})
finish_comment fails params at db w =
    if str_eq params.comment_author ""
    then commit_finish fails db w
    else if fails SqlCall.insert
    then rollback db sql_failure
    else commit_finish fails db (with_comment params at w)

-- From the second UPDATE on; `w` holds the finished run.
unfoldable pub finish_task :
    Faults
    → TerminalAttemptState
    → FinishAttemptParams
    → Time
    → Db
    → Db
    → Handle × Fallible (Unit {0})
finish_task fails state params at db w =
    let fits = in_progress_task params.task_id in
    let w' = record w { tasks = update_where fits (finished_task state params at) w.tasks } in
    if fails SqlCall.second_exec
    then rollback db sql_failure
    else if fails SqlCall.second_count
    then rollback db sql_failure
    else if not (count_where fits w.tasks == 1)
    then rollback db Error.conflict
    else finish_comment fails params at db w'

-- The transaction.
unfoldable pub finish_tx :
    Faults
    → FinishAuthorization
    → TerminalAttemptState
    → FinishAttemptParams
    → Time
    → Db
    → Handle × Fallible (Unit {0})
finish_tx fails authorize state params at db =
    let fits = finishes authorize params in
    let w = record db { runs = update_where fits (finished_run state params at) db.runs } in
    if fails SqlCall.begin_tx
    then (at_rest db, err sql_failure)
    else if fails SqlCall.first_exec
    then rollback db sql_failure
    else if fails SqlCall.first_count
    then rollback db sql_failure
    else if not (count_where fits db.runs == 1)
    then rollback db Error.lease_lost
    else finish_task fails state params at db w

-- `(author == "") != (body == "")`.
abbrev pub comment_incomplete : FinishAttemptParams → Bool
comment_incomplete params =
    if str_eq params.comment_author ""
    then not (str_eq params.comment_body "")
    else str_eq params.comment_body ""

-- The zero time stands for `time.Now()`, here `clock`.
abbrev pub finish_time : Time → Time → Time
finish_time clock at = if at == 0 then clock else at

unfoldable pub finish_checked :
    Faults
    → FinishAuthorization
    → Time
    → FinishAttemptParams
    → Db
    → Fallible TerminalAttemptState
    → Handle × Fallible (Unit {0})
finish_checked fails authorize clock params db (err e) = (at_rest db, err e)
finish_checked fails authorize clock params db (ok state) =
    if comment_incomplete params
    then (at_rest db, err (Error.failure "attempt comment requires both author and body"))
    else finish_tx fails authorize state params (finish_time clock params.finished_at) db

unfoldable pub finish_with :
    Faults → FinishAuthorization → Time → FinishAttemptParams → Db → Handle × Fallible (Unit {0})
finish_with fails authorize clock params db =
    finish_checked fails authorize clock params db (terminal_state params.completion.outcome)

module _ (dates : SqlDates) (now : Time) where
  unfoldable pub finish_attempt :
      Faults → Time → FinishAttemptParams → Db → Handle × Fallible (Unit {0})
  finish_attempt fails = finish_with fails (owner_finish_authorization dates now)

  unfoldable pub recover_expired_attempt :
      Faults → Time → FinishAttemptParams → Db → Handle × Fallible (Unit {0})
  recover_expired_attempt fails = finish_with fails (expired_finish_authorization dates now)
