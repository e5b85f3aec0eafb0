-- ===== src/Tests/StoreRuns.antt =====
-- One task in progress under one running attempt, and one failed task.
use agent_inbox_question.Base.{
  ◌≡◌, refl, false, none, some, ok, err, is_ok, pos, [], ◌∷◌, leb, add_time, arith,
}
use agent_inbox_question.Domain.Status.{
  TaskStatus, RunStatus, ExitReason, AttemptOutcome, ContinuationKind,
}
use agent_inbox_question.Domain.Continuation.{no_continuation}
use agent_inbox_question.Domain.Completion.{terminal_state}
use agent_inbox_question.Domain.Errors.{Error}
use agent_inbox_question.Domain.Transition.{transition}
use agent_inbox_question.Store.Table.{count_where, update_where, find_where}
use agent_inbox_question.Store.Database.{TaskRow, Run, Db, at_rest, SqlDates, no_faults, latest_run}
use agent_inbox_question.Store.Progress.{AttemptProgress, update_progress}
use agent_inbox_question.Store.Finish.{
  FinishAttemptParams, owner_finish_authorization, finishes, finish_with, finish_checked, finish_tx,
  finish_task, finish_comment, commit_finish, finish_attempt, recover_expired_attempt,
}
use agent_inbox_question.Store.Start.{
  StartAttemptParams, StartAuthorization, claims, start_authorized, start_checked, start_with_token,
  start_tx, insert_run, started_run, claim_error,
}
use agent_inbox_question.Store.Finish.Laws.{finish_error}
use agent_inbox_question.Store.Invariant.{IsConsistent}
use agent_inbox_question.Store.Invariant.Finish.{finish_with-IsConsistent}
use agent_inbox_question.Store.Invariant.Start.{start_authorized-IsConsistent, start_twice}
use agent_inbox_question.Store.Fencing.{stale_progress, finish_exclusive}

abbrev pub dates : SqlDates
dates = record { julianday = λ t. t; time_after = λ t d. add_time t d; text_le = λ a b. leb a b }

abbrev pub busy_task : TaskRow
busy_task = record {
  id = 1;
  title = "auth";
  description = "";
  status = TaskStatus.in_progress;
  created_at = 1;
  updated_at = 5;
  next_eligible_at = none;
  auto_retry_state = ContinuationKind.none;
  auto_retry_reason = "";
}

abbrev pub idle_task : TaskRow
idle_task = record busy_task {
  id = 2;
  status = TaskStatus.failed;
  next_eligible_at = some 40;
  auto_retry_state = ContinuationKind.scheduled;
}

abbrev pub busy_run : Run
busy_run = record {
  id = 1;
  task_id = 1;
  session_id = "s";
  status = RunStatus.running;
  exit_reason = ExitReason.none;
  output = "";
  tokens_used = 0;
  token_budget = 3500;
  error = "";
  started_at = 5;
  finished_at = none;
  owner_token = "a";
  lease_expires_at = some 100;
  start_step = 0;
  session_checkpoint = "";
}

abbrev pub idle_run : Run
idle_run = record busy_run {
  id = 2;
  task_id = 2;
  status = RunStatus.token_exhausted;
  exit_reason = ExitReason.token_budget_exhausted;
  finished_at = some 10;
}

abbrev pub db : Db
db = record {
  tasks = idle_task ∷ busy_task ∷ [];
  runs = idle_run ∷ busy_run ∷ [];
  comments = [];
  task_seq = 2;
  run_seq = 2;
  comment_seq = 0;
}

pub db-IsConsistent : IsConsistent db
unfolding count_where
db-IsConsistent = record {
  tasks_fresh = omega arith;
  runs_fresh = omega arith;
  owned = λ t. ground arith;
}

abbrev pub finish_params : FinishAttemptParams
finish_params = record {
  run_id = 1;
  task_id = 1;
  owner_token = "a";
  output = "done";
  tokens_used = 900;
  error = "";
  comment_author = "agent";
  comment_body = "4/4 steps completed";
  finished_at = 60;
  session_checkpoint = "{}";
  completion = record { outcome = AttemptOutcome.completed; continuation = no_continuation };
}

abbrev progress : AttemptProgress
progress = record {
  run_id = 1;
  owner_token = "a";
  output = "one more";
  tokens_used = 1000;
  checkpoint = "{}";
}

abbrev pub resume_params : StartAttemptParams
resume_params = record {
  task_id = 2;
  expected_status = TaskStatus.failed;
  expected_run_id = 2;
  session_id = "s";
  token_budget = 3500;
  start_step = 3;
  started_at = 50;
  lease_duration = pos 30;
}

pub finished : (finish_attempt dates 50 no_faults 60 finish_params db).1 ≡ ok tt
unfolding finish_attempt finish_with finish_checked finish_tx finish_task finish_comment
    commit_finish terminal_state finishes owner_finish_authorization count_where update_where
finished = refl

-- One row too many is not found, and nothing is written.
pub refused :
    finish_with no_faults (owner_finish_authorization dates 100) 60 finish_params db
    ≡ (at_rest db, err Error.lease_lost)
unfolding finish_with finish_checked finish_tx terminal_state finishes owner_finish_authorization
    count_where
refused = refl

started :
    (start_authorized dates no_faults 50
      (some "b")
      StartAuthorization.automatic_start
      resume_params
      db).1
    ≡ ok (started_run resume_params 50 "b" 3)
unfolding start_authorized start_checked start_with_token start_tx insert_run transition claims
    count_where latest_run
started = refl

-- A second too early the claim is refused.
claim_too_early :
    start_authorized dates no_faults 50
      (some "b")
      StartAuthorization.owner_start
      (record resume_params { started_at = 39 })
      db
    ≡ (at_rest db, err Error.not_eligible)
unfolding start_authorized start_checked start_with_token start_tx claim_error transition claims
    count_where update_where find_where latest_run
claim_too_early = refl

stale_progress_example :
    ((update_progress dates 55 no_faults progress
        (finish_attempt dates 50 no_faults 60 finish_params db).0.committed).0
      ≡ (finish_attempt dates 50 no_faults 60 finish_params db).0.committed)
    × (is_ok
          (update_progress dates 55 no_faults progress
            (finish_attempt dates 50 no_faults 60 finish_params db).0.committed).1
        ≡ false)
unfolding finish_attempt
stale_progress_example =
    stale_progress no_faults (owner_finish_authorization dates 50) 60 finish_params db
      db-IsConsistent finished dates 55 no_faults progress refl

finish_exclusive_example :
    is_ok (recover_expired_attempt dates 50 no_faults 60 finish_params db).1 ≡ false
finish_exclusive_example =
    finish_exclusive dates 50 no_faults no_faults 60 60 finish_params finish_params db
      db-IsConsistent refl finished

start_twice_example :
    is_ok
      (start_authorized dates no_faults 51
        (some "c")
        StartAuthorization.owner_start
        resume_params
        (start_authorized dates no_faults 50
          (some "b")
          StartAuthorization.automatic_start
          resume_params
          db).0.committed).1
    ≡ false
start_twice_example =
    start_twice dates no_faults no_faults 50 51 (some "b") (some "c")
      StartAuthorization.automatic_start StartAuthorization.owner_start resume_params resume_params
      db (started_run resume_params 50 "b" 3) db-IsConsistent started refl

start_authorized-IsConsistent_example :
    IsConsistent
      (start_authorized dates no_faults 50
        (some "b")
        StartAuthorization.automatic_start
        resume_params
        db).0.committed
start_authorized-IsConsistent_example =
    start_authorized-IsConsistent dates no_faults 50 (some "b") StartAuthorization.automatic_start
      resume_params db db-IsConsistent

finish_with-IsConsistent_example :
    IsConsistent
      (finish_with no_faults (owner_finish_authorization dates 50) 60 finish_params db).0.committed
finish_with-IsConsistent_example =
    finish_with-IsConsistent no_faults (owner_finish_authorization dates 50) 60 finish_params db
      db-IsConsistent

finish_error_example :
    (finish_with no_faults (owner_finish_authorization dates 100) 60 finish_params db).0
    ≡ at_rest db
unfolding finish_with finish_checked finish_tx terminal_state finishes owner_finish_authorization
    count_where
finish_error_example =
    finish_error no_faults (owner_finish_authorization dates 100) 60 finish_params db refused
