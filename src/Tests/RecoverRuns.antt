-- ===== src/Tests/RecoverRuns.antt =====
-- Recovery of the expired attempt of the task in progress.
use agent_inbox_question.Base.{◌≡◌, refl, false, none, ok, is_ok, pos, String}
use agent_inbox_question.Domain.Completion.{terminal_state, decide_attempt_completion}
use agent_inbox_question.Domain.Errors.{Fallible}
use agent_inbox_question.Agent.Session.{SessionState, Json, attempt_checkpoint, outputs}
use agent_inbox_question.Store.Table.{count_where, update_where}
use agent_inbox_question.Store.Database.{no_faults}
use agent_inbox_question.Store.Finish.{
  owner_finish_authorization, expired_finish_authorization, finishes, finish_with, finish_checked,
  finish_tx, finish_task, finish_comment, commit_finish, recover_expired_attempt,
}
use agent_inbox_question.Runner.Terminalize.{terminalize_checkpoint}
use agent_inbox_question.Runner.Recover.{recovery_plan, recover_expired}
use agent_inbox_question.Runner.Recover.Laws.{recover_then_finish}
use agent_inbox_question.Tests.StoreRuns.{dates, db, db-IsConsistent, finish_params, busy_run}
use agent_inbox_question.Tests.RunnerRuns.{halted}

abbrev pub json : Json
json = record { marshal = λ s. "{}"; unmarshal = λ t. none }

abbrev pub load : String → Fallible SessionState
load id = ok halted

abbrev persist : SessionState → Fallible (Unit {0})
persist s = ok tt

recovered :
    (recover_expired dates 200 no_faults 200 json load persist busy_run (pos 30) 200 db).1 ≡ ok tt
unfolding recover_expired recover_expired_attempt recovery_plan finish_with finish_checked finish_tx
    finish_task finish_comment commit_finish terminal_state finishes expired_finish_authorization
    count_where update_where terminalize_checkpoint decide_attempt_completion attempt_checkpoint
    outputs
recovered = refl

recover_then_finish_example :
    is_ok
      (finish_with no_faults
        (owner_finish_authorization dates 50)
        60
        finish_params
        (recover_expired dates 200 no_faults 200 json load persist busy_run
          (pos 30)
          200
          db).0.committed).1
    ≡ false
recover_then_finish_example =
    recover_then_finish dates 200 no_faults 200 json load persist busy_run (pos 30) 200 db no_faults
      (owner_finish_authorization dates 50) 60 finish_params db-IsConsistent recovered refl
