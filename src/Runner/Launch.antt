-- ===== src/Runner/Launch.antt =====
-- internal/runner/runner.go: Execute, resume and its three callers, and bindOwnedSession.
pub mod Laws
pub mod Alone
pub mod Liveness
use agent_inbox_question.Base.{ℕ, String, Option, none, some, [], if◌then◌else◌, ok, err}
use agent_inbox_question.Domain.Status.{TaskStatus, AttemptOutcome, same_task_status}
use agent_inbox_question.Domain.Errors.{Error, Fallible}
use agent_inbox_question.Agent.Session.{SessionState, initial_state, bind_attempt}
use agent_inbox_question.Store.Database.{Db, Run, Handle}
use agent_inbox_question.Store.Progress.{AttemptProgress, update_progress}
use agent_inbox_question.Store.Candidate.{ResumeCandidate, get_resume_candidate}
use agent_inbox_question.Store.Tasks.{Task, get_task}
use agent_inbox_question.Runner.Resume.{
  ResumeKind, ResumeRequest, AttemptExpectation, prepare_resume, start_attempt,
}
use agent_inbox_question.Runner.World.{Env, World, pass, put_db}
use agent_inbox_question.Runner.Attempt.{run_attempt}

-- A call's result with the world that it leaves; nothing where a session's loop runs out of fuel.
abbrev pub Launched : Type 0
Launched = Option (Fallible AttemptOutcome × World)

abbrev pub launch_error : World → Error → Launched
launch_error w e = some (err e, w)

module _ (env : Env) where
  -- What bindOwnedSession publishes: no output, the account and the state.
  abbrev pub bound_progress : Run → SessionState → AttemptProgress
  bound_progress run s = record {
    run_id = run.id;
    owner_token = run.owner_token;
    output = "";
    tokens_used = s.tokens_used;
    checkpoint = env.json.marshal s;
  }

  abbrev pub drive : ℕ → Run → SessionState → World → Db × Fallible (Unit {0}) → Launched
  drive task_id run s w (db, err e) = launch_error (put_db w db) e
  drive task_id run s w (db, ok _) = run_attempt env run task_id s (put_db w db)

  -- From the file that BindAttempt writes on.
  abbrev pub bind_and_drive : ℕ → Run → SessionState → World → Fallible (Unit {0}) → Launched
  bind_and_drive task_id run s w (err e) = launch_error w e
  bind_and_drive task_id run s w (ok _) =
      let w' = pass env w in
      drive task_id run s w' (
        update_progress env.dates (env.sql_now w'.moment) (env.fails w'.moment)
          (bound_progress run s) w'.db)

  abbrev pub started : ℕ → SessionState → World → Handle × Fallible Run → Launched
  started task_id s w (h, err e) = launch_error (put_db w h.committed) e
  started task_id s w (h, ok run) =
      let w' = pass env (put_db w h.committed) in
      bind_and_drive task_id run (bind_attempt run.id run.owner_token s) w' (env.files w'.moment)

  -- startAttempt, bindOwnedSession and runAttempt, as Execute and resume end.
  unfoldable pub launch : SessionState → AttemptExpectation → World → Launched
  unfolding pass
  launch s expected w =
      let w' = pass env w in
      started expected.task_id s w' (
        start_attempt env.dates (env.fails w'.moment) (env.clock w'.moment) (env.tokens w'.moment)
          env.lease_duration s expected w'.db)

  abbrev pub fresh_expectation : ℕ → AttemptExpectation
  fresh_expectation task_id = record {
    task_id = task_id;
    status = TaskStatus.todo;
    previous_run_id = 0;
    claim = ResumeKind.manual_resume;
  }

  -- agent.Start: a random id, and the file of the new session.
  abbrev pub session_written : SessionState → Fallible (Unit {0}) → Fallible SessionState
  session_written s (err e) = err e
  session_written s (ok _) = ok s

  abbrev pub start_session : Task → ℕ → Option String → Fallible SessionState
  start_session task m none = err (Error.failure "generate session id")
  start_session task m (some id) =
      session_written (initial_state env.quote id task.title task.description []) (env.files m)

  abbrev pub launch_new : ℕ → World → Fallible SessionState → Launched
  launch_new task_id w (err e) = launch_error w e
  launch_new task_id w (ok s) = launch s (fresh_expectation task_id) w

  abbrev pub todo_conflict : ℕ → TaskStatus → Error
  todo_conflict task_id observed = Error.task_status_conflict (record {
    task_id = task_id;
    expected = TaskStatus.todo;
    observed = observed;
    expected_run_id = 0;
    observed_run_id = 0;
  })

  abbrev pub execute_task : ℕ → World → Fallible Task → Launched
  execute_task task_id w (err e) = launch_error w e
  execute_task task_id w (ok task) =
      if same_task_status task.status TaskStatus.todo
      then launch_new task_id w (start_session task w.moment (env.ids w.moment))
      else launch_error w (todo_conflict task_id task.status)

  unfoldable pub execute : ℕ → World → Launched
  unfolding pass
  execute task_id w =
      let w' = pass env w in execute_task task_id w' (get_task (env.fails w'.moment) task_id w'.db)

  abbrev pub failed_expectation : ResumeRequest → ResumeCandidate → AttemptExpectation
  failed_expectation request candidate = record {
    task_id = request.task_id;
    status = TaskStatus.failed;
    previous_run_id = candidate.run_id;
    claim = request.kind;
  }

  abbrev pub launch_resumed :
      ResumeRequest → ResumeCandidate → World → Fallible SessionState → Launched
  launch_resumed request candidate w (err e) = launch_error w e
  launch_resumed request candidate w (ok s) = launch s (failed_expectation request candidate) w

  abbrev pub resume_candidate : ResumeRequest → World → Fallible ResumeCandidate → Launched
  resume_candidate request w (err e) = launch_error w e
  resume_candidate request w (ok candidate) =
      launch_resumed request candidate w
        (prepare_resume env.json (env.loads w.moment) request candidate (env.clock w.moment))

  unfoldable pub resume : ResumeRequest → World → Launched
  unfolding pass
  resume request w =
      let w' = pass env w in
      resume_candidate request w' (get_resume_candidate (env.fails w'.moment) request.task_id w'.db)

  -- The three callers of resume.
  unfoldable pub resume_manually : ℕ → World → Launched
  unfolding resume
  resume_manually task_id =
      resume (record { task_id = task_id; expected_run_id = 0; kind = ResumeKind.manual_resume })

  unfoldable pub resume_scheduled : ℕ → ℕ → World → Launched
  unfolding resume
  resume_scheduled task_id expected_run_id = resume (record {
    task_id = task_id;
    expected_run_id = expected_run_id;
    kind = ResumeKind.scheduled_exhaustion_resume;
  })

  unfoldable pub resume_interrupted : ℕ → ℕ → World → Launched
  unfolding resume
  resume_interrupted task_id expected_run_id = resume (record {
    task_id = task_id;
    expected_run_id = expected_run_id;
    kind = ResumeKind.interrupted_recovery_resume;
  })
