-- ===== src/Tests/AttemptRuns.antt =====
-- An attempt whose window is too small, alone on its database, and one whose run is over.
use agent_inbox_question.Base.{
  ℕ, ◌≤◌, ◌+◌, ◌≡◌, refl, true, false, none, some, ok, err, is_ok, pos, Option, arith,
}
use agent_inbox_question.Domain.Status.{AttemptOutcome}
use agent_inbox_question.Domain.Completion.{terminal_state, decide_attempt_completion}
use agent_inbox_question.Domain.Errors.{Error, Fallible}
use agent_inbox_question.Agent.Session.{attempt_checkpoint, outputs}
use agent_inbox_question.Agent.Commit.{commit_state, commit_then_persist, stamp}
use agent_inbox_question.Agent.Run.{
  run, run_fenced, run_loop, round, loop_body, fenced_step, attempt_step, exhaust, interrupt,
}
use agent_inbox_question.Store.Table.{count_where, update_where}
use agent_inbox_question.Store.Database.{no_faults, lease_live}
use agent_inbox_question.Store.Progress.{update_progress, renew_lease, owns}
use agent_inbox_question.Store.Finish.{
  owner_finish_authorization, finishes, finish_with, finish_checked, finish_tx, finish_task,
  finish_comment, commit_finish, finish_attempt,
}
use agent_inbox_question.Store.Fencing.{running_id}
use agent_inbox_question.Store.System.{here}
use agent_inbox_question.Store.System.Final.{IsFinal}
use agent_inbox_question.Runner.Terminalize.{terminalize_checkpoint}
use agent_inbox_question.Runner.World.{Env, World, pass}
use agent_inbox_question.Runner.Attempt.{run_attempt}
use agent_inbox_question.Runner.Attempt.Calm.{IsCalm, IsOwned}
use agent_inbox_question.Runner.Attempt.Completion.{is_done_task, is_paid_run}
use agent_inbox_question.Runner.Attempt.Liveness.{run_attempt-Completes}
use agent_inbox_question.Agent.Run.Results.{IsSound}
use agent_inbox_question.Runner.Attempt.Laws.{run_attempt_fenced, run_attempt_finalizes}
use agent_inbox_question.Runner.Resume.{ResumeRequest, ResumeKind}
use agent_inbox_question.Tests.AgentRuns.{too_small, two_steps}
use agent_inbox_question.Tests.RecoverRuns.{json, load}
use agent_inbox_question.Tests.StoreRuns.{dates, db, db-IsConsistent, busy_run, finish_params}

-- No other process acts, and every call succeeds.
abbrev pub alone : Env
alone = record {
  dates = dates;
  json = json;
  no_delay = true;
  cancel_text = "context canceled";
  lease_duration = pos 30;
  reset_interval = pos 30;
  has_output = false;
  sql_now = λ m. 50 + m;
  clock = λ m. 60 + m;
  fails = λ m. no_faults;
  others = λ m db. db;
  renews = λ m. true;
  done = λ m. false;
  files = λ m. ok tt;
  prints = λ m. true;
  loads = λ m. load;
  ids = λ m. some "id";
  tokens = λ m. some "b";
  quote = λ t. t;
  waits = λ m d. ok tt;
}

abbrev pub before : World
before = record { db = db; moment = 0 }

abbrev end_of : Option (Fallible AttemptOutcome × World) → World
end_of none = before
end_of (some (r, w)) = w

abbrev ended : World
ended = end_of (run_attempt alone busy_run 1 too_small before)

attempt_ends :
    run_attempt alone busy_run 1 too_small before ≡ some (ok AttemptOutcome.token_exhausted, ended)
unfolding run_attempt run_fenced run run_loop round loop_body fenced_step attempt_step exhaust
    commit_state commit_then_persist stamp update_progress renew_lease owns finish_attempt
    finish_with finish_checked finish_tx finish_task finish_comment commit_finish terminal_state
    finishes owner_finish_authorization count_where update_where terminalize_checkpoint
    decide_attempt_completion attempt_checkpoint outputs pass
attempt_ends = refl

run_attempt_finalizes_example : count_where (running_id 1) ended.db.runs ≡ 0
run_attempt_finalizes_example =
    run_attempt_finalizes alone busy_run (λ m db. here db) 1 too_small before ended
      AttemptOutcome.token_exhausted db-IsConsistent attempt_ends

-- The same attempt, once its run was finalized.
abbrev late : World
late = record {
  db = (finish_attempt dates 50 no_faults 60 finish_params db).0.committed;
  moment = 0;
}

late-IsFinal : IsFinal 1 late.db
unfolding finish_attempt finish_with finish_checked finish_tx finish_task finish_comment
    commit_finish terminal_state finishes owner_finish_authorization count_where update_where
late-IsFinal = record { issued = omega arith; over = refl }

abbrev late_end : World
late_end = end_of (run_attempt alone busy_run 1 too_small late)

abbrev late_result : Fallible AttemptOutcome
late_result = err Error.lease_lost

late_ends : run_attempt alone busy_run 1 too_small late ≡ some (late_result, late_end)
unfolding run_attempt run_fenced run run_loop round loop_body fenced_step attempt_step exhaust
    interrupt commit_state commit_then_persist stamp update_progress renew_lease owns finish_attempt
    finish_with finish_checked finish_tx finish_task finish_comment commit_finish terminal_state
    finishes owner_finish_authorization count_where update_where terminalize_checkpoint
    decide_attempt_completion attempt_checkpoint outputs pass
late_ends = refl

run_attempt_fenced_example : is_ok late_result ≡ false
run_attempt_fenced_example =
    run_attempt_fenced alone busy_run (λ m db. here db) 1 too_small late late_end late_result
      late-IsFinal late_ends

abbrev again_request : ResumeRequest
again_request = record {
  task_id = 2;
  expected_run_id = 2;
  kind = ResumeKind.scheduled_exhaustion_resume;
}

lease_lasts :
    (m k : ℕ)
    → k ≤ 2
    → lease_live dates (50 + (m + k)) (some (dates.time_after (50 + m) (pos 30))) ≡ true
unfolding lease_live
lease_lasts m k h = ground (arith, h)

alone-IsCalm : IsCalm alone busy_run 1
alone-IsCalm = record {
  no_faults = λ m c. refl;
  goes_on = λ m. refl;
  ticks = λ m. refl;
  written = λ m. refl;
  printed = λ m. refl;
  lasts = lease_lasts;
  spares_run = λ m db p h. refl;
  spares_task = λ m db p h. refl;
}

owned_now : IsOwned alone busy_run 1 db 0
unfolding count_where lease_live
owned_now = record { unique = refl; held = refl; claimed = refl }

owned_next : IsOwned alone busy_run 1 db 1
unfolding count_where lease_live
owned_next = record { unique = refl; held = refl; claimed = refl }

two_steps-IsSound : IsSound two_steps
two_steps-IsSound = record { in_plan = omega arith; begun = omega arith; balanced = refl }

run_attempt-Completes_example :
    (x : Fallible AttemptOutcome × World) × (run_attempt alone busy_run 1 two_steps before ≡ some x)
    × ((x.0 ≡ ok AttemptOutcome.completed)
        × ((1 ≤ count_where (is_done_task 1) x.1.db.tasks)
            × (1 ≤ count_where (is_paid_run 1 500) x.1.db.runs)))
run_attempt-Completes_example =
    run_attempt-Completes alone busy_run 1 alone-IsCalm two_steps before owned_now owned_next
      two_steps-IsSound refl refl (omega arith)
