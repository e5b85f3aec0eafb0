-- ===== src/Runner/Recover.antt =====
-- internal/runner/runner.go: RecoverExpired and restoreAttemptSession.
pub mod Laws
use agent_inbox_question.Base.{
  String, Time, Duration, pos, ltb, ◌==◌, if◌then◌else◌, str_eq, ok, err, ◌>>=◌, ◌>>◌, guard,
}
use agent_inbox_question.Domain.Status.{ProviderWindowOrigin}
use agent_inbox_question.Domain.Errors.{Error, Fallible}
use agent_inbox_question.Agent.Session.{
  SessionState, AttemptCheckpoint, Json, restore, begin_attempt, bind_attempt, attempt_checkpoint,
}
use agent_inbox_question.Store.Database.{Run, Db, Handle, at_rest, SqlDates, Faults}
use agent_inbox_question.Store.Finish.{FinishAttemptParams, recover_expired_attempt}
use agent_inbox_question.Runner.Terminalize.{AttemptTerminalization, terminalize_checkpoint}

-- `load` is agent.Load: the session file of an id, decoded.
unfoldable pub restore_attempt_session :
    Json → (String → Fallible SessionState) → String → String → Fallible SessionState
restore_attempt_session json load session_id checkpoint =
    if str_eq checkpoint "" then load session_id else restore json checkpoint

-- A session that an older run left is given the run's allowance and bound to it. `persist` is the
-- write of the session file by BindAttempt.
unfoldable pub reconcile :
    (SessionState → Fallible (Unit {0}))
    → Run
    → SessionState
    → AttemptCheckpoint
    → Fallible (SessionState × AttemptCheckpoint)
reconcile persist run s c =
    let rebound = (do
      begun ← begin_attempt (pos run.token_budget) ProviderWindowOrigin.unknown s
      persist (bind_attempt run.id run.owner_token begun)
      c' ← attempt_checkpoint (bind_attempt run.id run.owner_token begun)
      ok (bind_attempt run.id run.owner_token begun, c')) in
    if c.run_id == run.id
    then ok (s, c)
    else if ltb run.id c.run_id
    then err (Error.failure "session is bound to newer run")
    else rebound

abbrev pub recovery_params :
    Json
    → Run
    → Time
    → SessionState
    → AttemptCheckpoint
    → AttemptTerminalization
    → FinishAttemptParams
recovery_params json run now s c terminal = record {
  run_id = run.id;
  task_id = run.task_id;
  owner_token = "";
  output = c.output;
  tokens_used = c.tokens_used;
  error = terminal.error_text;
  comment_author = terminal.comment_author;
  comment_body = terminal.comment_body;
  finished_at = now;
  session_checkpoint = json.marshal s;
  completion = terminal.completion;
}

-- Everything in front of the database call.
unfoldable pub recovery_plan :
    Json
    → (String → Fallible SessionState)
    → (SessionState → Fallible (Unit {0}))
    → Run
    → Duration
    → Time
    → Fallible FinishAttemptParams
unfolding reconcile restore_attempt_session
recovery_plan json load persist run reset_interval now = do
  s ← restore_attempt_session json load run.session_id run.session_checkpoint
  c ← attempt_checkpoint s
  (s', c') ← reconcile persist run s c
  guard (str_eq c'.owner_token run.owner_token) (Error.failure "session owner token does not match")
  terminal ←
      terminalize_checkpoint s' c' run.start_step now reset_interval
        "process exited before attempt finalization"
  ok (recovery_params json run now s' c' terminal)

abbrev pub recover_with :
    SqlDates
    → Time
    → Faults
    → Time
    → Db
    → Fallible FinishAttemptParams
    → Handle × Fallible (Unit {0})
recover_with dates sql_now fails clock db (err e) = (at_rest db, err e)
recover_with dates sql_now fails clock db (ok params) =
    recover_expired_attempt dates sql_now fails clock params db

-- `sql_now` is SQLite's clock and `clock` is `time.Now()`; `now` is the caller's time.
unfoldable pub recover_expired :
    SqlDates
    → Time
    → Faults
    → Time
    → Json
    → (String → Fallible SessionState)
    → (SessionState → Fallible (Unit {0}))
    → Run
    → Duration
    → Time
    → Db
    → Handle × Fallible (Unit {0})
recover_expired dates sql_now fails clock json load persist run reset_interval now db =
    recover_with dates sql_now fails clock db
      (recovery_plan json load persist run reset_interval now)
