-- ===== src/Tests/SelectionRuns.antt =====
-- Selection from one task in progress under one running attempt, and one failed task.
use mathlib.Core.List.{Memᴰ}
use mathlib.Core.List.Memᴰ.{head}
use agent_inbox_question.Base.{◌≡◌, refl, true, some, ok, leb, arith}
use agent_inbox_question.Domain.Status.{RunStatus, ExitReason}
use agent_inbox_question.Store.Database.{no_faults, TaskRow, latest_run, lease_expired}
use agent_inbox_question.Store.Selection.{
  Continuation, rows_of, first_row, due, next, expired, next_expired,
}
use agent_inbox_question.Store.Selection.Laws.{
  IsOrder, Due, next_sound, next_first, next_expired_sound,
}
use agent_inbox_question.Store.Database.{Run}
use agent_inbox_question.Store.Table.{count_where}
use agent_inbox_question.Store.Start.{
  claims, started_run, start_automatic_attempt, start_authorized, start_checked, start_with_token,
  start_tx, insert_run,
}
use agent_inbox_question.Store.Start.Eligible.{IsSelected, start_automatic-IsSelected}
use agent_inbox_question.Domain.Transition.{transition}
use agent_inbox_question.Tests.StoreRuns.{dates, db, idle_task, busy_run, resume_params}

abbrev chosen : Continuation
chosen = record {
  task_id = 2;
  run_id = 2;
  exit_reason = ExitReason.token_budget_exhausted;
  eligible_at = 40;
}

selects : next dates no_faults db ≡ ok chosen
unfolding next rows_of first_row due latest_run
selects = refl

is_due : due db.runs idle_task ≡ some chosen
unfolding due latest_run
is_due = refl

selects_expired : next_expired dates 200 no_faults db ≡ ok busy_run
unfolding next_expired rows_of first_row expired
selects_expired = refl

dates-IsOrder : IsOrder dates
dates-IsOrder = record {
  reflexive = λ t. ground arith;
  total = λ t u h. ground arith;
  transitive = λ t u v h k. ground arith;
}

next_sound_example :
    (k : TaskRow) × Memᴰ k db.tasks × Due k k.next_eligible_at (latest_run k.id db.runs) chosen
next_sound_example = next_sound dates no_faults db chosen selects

next_first_example : leb 40 40 ≡ true
next_first_example =
    next_first dates no_faults db dates-IsOrder chosen chosen idle_task selects (head refl) is_due

next_expired_sound_example :
    Memᴰ busy_run db.runs
    × (busy_run.status ≡ RunStatus.running)
    × (lease_expired dates 200 busy_run.lease_expires_at ≡ true)
next_expired_sound_example = next_expired_sound dates 200 no_faults db busy_run selects_expired

starts_automatically :
    (start_automatic_attempt dates no_faults 50 (some "b") resume_params db).1
    ≡ ok (started_run resume_params 50 "b" 3)
unfolding start_automatic_attempt start_authorized start_checked start_with_token start_tx
    insert_run transition claims count_where latest_run
starts_automatically = refl

start_automatic-IsSelected_example :
    (k : TaskRow) × Memᴰ k db.tasks
    × (k.id ≡ 2)
    × ((q : Run) × Memᴰ q db.runs
        × (q.id ≡ 2)
        × IsSelected dates 50 ExitReason.token_budget_exhausted db.runs k q)
start_automatic-IsSelected_example =
    start_automatic-IsSelected dates no_faults 50 (some "b") resume_params db
      (started_run resume_params 50 "b" 3) starts_automatically
