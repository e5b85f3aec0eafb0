-- ===== src/Store/Start/Claim.antt =====
-- internal/store/attempt_repo.go: the UPDATE by which startOwnedAttempt claims a task, and the run
-- that it inserts.
use agent_inbox_question.Base.{
  ℕ, String, Time, Duration, add_time, Bool, true, false, ◌&&◌, ◌||◌, not, Option, none, some, List,
  ◌==◌, leb, ltb,
}
use agent_inbox_question.Domain.Status.{
  TaskStatus, RunStatus, ExitReason, ContinuationKind, same_task_status, same_exit_reason,
  is_scheduled,
}
use agent_inbox_question.Store.Table.{count_where}
use agent_inbox_question.Store.Database.{TaskRow, Run, SqlDates, latest_run, runs_of}

pub record StartAttemptParams : Type 0 where
  pub task_id : ℕ
  pub expected_status : TaskStatus
  pub expected_run_id : ℕ
  pub session_id : String
  pub token_budget : ℕ
  pub start_step : ℕ
  pub started_at : Time
  pub lease_duration : Duration

pub data StartAuthorization : Type 0 where
  owner_start automatic_start interrupted_start : StartAuthorization

-- `next_eligible_at IS NULL OR julianday(next_eligible_at) <= julianday(?)`.
abbrev pub eligible_or_null : SqlDates → Time → Option Time → Bool
eligible_or_null dates at none = true
eligible_or_null dates at (some next) = leb (dates.julianday next) (dates.julianday at)

-- `next_eligible_at IS NOT NULL AND julianday(next_eligible_at) <= julianday(?)`.
abbrev pub eligible_not_null : SqlDates → Time → Option Time → Bool
eligible_not_null dates at none = false
eligible_not_null dates at (some next) = leb (dates.julianday next) (dates.julianday at)

-- The subquery under EXISTS.
abbrev pub ended_by : StartAttemptParams → ExitReason → ℕ → Run → Bool
ended_by params reason t r =
    r.id == params.expected_run_id && r.task_id == t && same_exit_reason r.exit_reason reason

abbrev pub selected : SqlDates → Time → StartAttemptParams → ExitReason → List Run → TaskRow → Bool
selected dates at params reason runs k =
    is_scheduled k.auto_retry_state
    && eligible_not_null dates at k.next_eligible_at
    && ltb 0 (count_where (ended_by params reason k.id) runs)

unfoldable pub continuation_predicate :
    SqlDates → Time → StartAuthorization → StartAttemptParams → List Run → TaskRow → Bool
continuation_predicate dates at StartAuthorization.owner_start params runs k =
    not (same_task_status params.expected_status TaskStatus.failed)
    || eligible_or_null dates at k.next_eligible_at
continuation_predicate dates at StartAuthorization.automatic_start params runs k =
    selected dates at params ExitReason.token_budget_exhausted runs k
continuation_predicate dates at StartAuthorization.interrupted_start params runs k =
    selected dates at params ExitReason.interrupted runs k

-- `? = (SELECT id ...)`: a comparison with NULL does not hold.
abbrev pub id_is : ℕ → Option Run → Bool
id_is i none = false
id_is i (some r) = r.id == i

-- No run before the first attempt; later ones name the latest run.
unfoldable pub predecessor_predicate : StartAttemptParams → List Run → Bool
predecessor_predicate params runs =
    (params.expected_run_id == 0 && count_where (runs_of params.task_id) runs == 0)
    || (not (params.expected_run_id == 0)
        && id_is params.expected_run_id (latest_run params.task_id runs))

unfoldable pub claims :
    SqlDates → Time → StartAuthorization → StartAttemptParams → List Run → TaskRow → Bool
unfolding continuation_predicate predecessor_predicate
claims dates at authorization params runs k =
    k.id == params.task_id
    && same_task_status k.status params.expected_status
    && continuation_predicate dates at authorization params runs k
    && predecessor_predicate params runs

abbrev pub claimed_task : Time → TaskRow → TaskRow
claimed_task at k = record k {
  status = TaskStatus.in_progress;
  updated_at = at;
  next_eligible_at = none;
  auto_retry_state = ContinuationKind.none;
  auto_retry_reason = "";
}

-- The inserted row, which is also the run that is returned.
abbrev pub started_run : StartAttemptParams → Time → String → ℕ → Run
started_run params at token id = record {
  id = id;
  task_id = params.task_id;
  session_id = params.session_id;
  status = RunStatus.running;
  exit_reason = ExitReason.none;
  output = "";
  tokens_used = 0;
  token_budget = params.token_budget;
  error = "";
  started_at = at;
  finished_at = none;
  owner_token = token;
  lease_expires_at = some (add_time at params.lease_duration);
  start_step = params.start_step;
  session_checkpoint = "";
}
