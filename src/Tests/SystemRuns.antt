-- ===== src/Tests/SystemRuns.antt =====
-- A task that is created and claimed in empty tables, what comes after a run is over, and a task on
-- which nothing was decided.
use agent_inbox_question.Base.{◌+◌, ◌≤◌, ◌≡◌, refl, false, none, some, ok, pos, [], ◌∷◌, arith}
use agent_inbox_question.Domain.Status.{TaskStatus, ContinuationKind}
use agent_inbox_question.Domain.Continuation.{scheduled_continuation, parse_continuation}
use agent_inbox_question.Domain.Continuation.Laws.{IsWellFormed}
use agent_inbox_question.Domain.Completion.{decide_attempt_completion}
use agent_inbox_question.Domain.Transition.{transition}
use agent_inbox_question.Domain.Errors.{Error, is_conflict}
use agent_inbox_question.Store.Table.{count_where, update_where}
use agent_inbox_question.Store.Order.{order_by}
use agent_inbox_question.Store.Database.{Db, no_faults, latest_run, runs_for, claims_for}
use agent_inbox_question.Store.Finish.{owner_finish_authorization}
use agent_inbox_question.Store.Invariant.Conflict.{finish_conflict}
use agent_inbox_question.Store.Progress.{renew_lease}
use agent_inbox_question.Store.Start.{
  StartAuthorization, StartAttemptParams, start_authorized, start_checked, start_with_token,
  start_tx, insert_run, claims,
}
use agent_inbox_question.Store.Selection.{rows_of, first_row}
use agent_inbox_question.Store.Tasks.{
  Task, create_task, created_task, get_task, whole_seconds, list_tasks,
}
use agent_inbox_question.Store.Tasks.Laws.{get-create_task}
use agent_inbox_question.Store.Continuations.{
  InitializedContinuation, is_undecided, find_unscheduled, unscheduled, initialize_with,
  initialize_unscheduled,
}
use agent_inbox_question.Store.Continuations.Laws.{IsStored, initialize_unscheduled_decreases}
use agent_inbox_question.Store.System.{
  Reach, here, later, creating, starting, renewing, empty_db, one_attempt,
}
use agent_inbox_question.Store.System.Final.{IsFinal, Reach-IsFinal}
use agent_inbox_question.Tests.StoreRuns.{
  dates, db, db-IsConsistent, idle_task, busy_task, finish_params, refused,
}

abbrev created : Db
created = (create_task no_faults 5_000_000_007 "auth" "" empty_db).0

abbrev first_params : StartAttemptParams
first_params = record {
  task_id = 1;
  expected_status = TaskStatus.todo;
  expected_run_id = 0;
  session_id = "s";
  token_budget = 3500;
  start_step = 0;
  started_at = 50;
  lease_duration = pos 30;
}

abbrev claimed : Db
claimed =
    (start_authorized dates no_faults 50 (some "a") StartAuthorization.owner_start first_params
      created).0.committed

claimed-Reach : Reach empty_db claimed
claimed-Reach =
    later (later (here empty_db) (creating no_faults 5_000_000_007 "auth" "" empty_db created refl))
      (starting dates no_faults 50 (some "a") StartAuthorization.owner_start first_params created
        claimed refl)

claimed_runs : count_where (runs_for 1) claimed.runs ≡ 1
unfolding create_task start_authorized start_checked start_with_token start_tx insert_run transition
    claims count_where update_where latest_run
claimed_runs = refl

one_attempt_example :
    (count_where (runs_for 1) claimed.runs ≤ 1)
    × (count_where (runs_for 1) claimed.runs ≡ count_where (claims_for 1) claimed.tasks)
one_attempt_example = one_attempt claimed claimed-Reach 1

-- The run of the failed task, and a renewal by somebody who still holds its token.
idle-IsFinal : IsFinal 2 db
unfolding count_where
idle-IsFinal = record { issued = omega arith; over = refl }

abbrev renewed_db : Db
renewed_db = (renew_lease dates 50 no_faults 2 "a" (pos 30) db).0

Reach-IsFinal_example : IsFinal 2 renewed_db
Reach-IsFinal_example =
    Reach-IsFinal 2
      (later (here db) (renewing dates 50 no_faults 2 "a" (pos 30) db renewed_db refl)) idle-IsFinal

finish_conflict_example : is_conflict Error.lease_lost ≡ false
finish_conflict_example =
    finish_conflict no_faults (owner_finish_authorization dates 100) finish_params db
      db-IsConsistent 60 refused

creates :
    (create_task no_faults 5_000_000_007 "auth" "" db).1
    ≡ ok (created_task "auth" "" 5_000_000_007 3)
unfolding create_task
creates = refl

get-create_task_example :
    get_task no_faults 3 (create_task no_faults 5_000_000_007 "auth" "" db).0
    ≡ ok (record (created_task "auth" "" 5_000_000_007 3) {
      created_at = whole_seconds 5_000_000_007;
      updated_at = whole_seconds 5_000_000_007;
    })
get-create_task_example =
    get-create_task no_faults no_faults 5_000_000_007 "auth" "" db
      (created_task "auth" "" 5_000_000_007 3) creates refl

abbrev busy_shown : Task
busy_shown = record (created_task "auth" "" 1 1) { status = TaskStatus.in_progress; updated_at = 5 }

abbrev idle_shown : Task
idle_shown = record busy_shown {
  id = 2;
  status = TaskStatus.failed;
  continuation = scheduled_continuation 40;
}

lists : list_tasks no_faults none db ≡ ok (busy_shown ∷ idle_shown ∷ [])
unfolding list_tasks order_by parse_continuation
lists = refl

-- A failed task from before continuations were stored.
abbrev old_db : Db
old_db = record db {
  tasks =
      record idle_task { next_eligible_at = none; auto_retry_state = ContinuationKind.none }
      ∷ busy_task
      ∷ [];
}

abbrev initialized : InitializedContinuation
initialized = record {
  task_id = 2;
  continuation = record (scheduled_continuation 40) {
    kind = ContinuationKind.stopped;
    reason = "auto-retry stopped: next step requires more than the configured window";
  };
}

initializes : (initialize_unscheduled no_faults (pos 30) old_db).1 ≡ ok initialized
unfolding initialize_unscheduled find_unscheduled unscheduled initialize_with rows_of first_row
    latest_run decide_attempt_completion count_where update_where
initializes = refl

initialize_unscheduled_decreases_example :
    IsWellFormed initialized.continuation
    × IsStored initialized.continuation initialized.task_id old_db.tasks
        (initialize_unscheduled no_faults (pos 30) old_db).0.tasks
    × (count_where is_undecided (initialize_unscheduled no_faults (pos 30) old_db).0.tasks + 1
        ≡ count_where is_undecided old_db.tasks)
initialize_unscheduled_decreases_example =
    initialize_unscheduled_decreases no_faults (pos 30) old_db initialized refl initializes
