-- ===== src/Runner/Launch/Laws.antt =====
-- What starting and resuming a task do to the tables, and that they end.
use agent_inbox_question.Base.{
  ℕ, String, Time, Duration, Option, none, some, ok, err, ◌≡◌, refl, inl, inr, Bool-cases,
}
use agent_inbox_question.Domain.Status.{AttemptOutcome, TaskStatus, same_task_status}
use agent_inbox_question.Domain.Errors.{Fallible}
use agent_inbox_question.Agent.Session.{SessionState}
use agent_inbox_question.Store.Database.{Db, Run, Handle, SqlDates, Faults}
use agent_inbox_question.Store.Start.{
  StartAttemptParams, start_owned_attempt, start_automatic_attempt, start_interrupted_attempt,
  no_failed_run, StartAuthorization, start_authorized,
}
use agent_inbox_question.Store.Candidate.{ResumeCandidate}
use agent_inbox_question.Store.Tasks.{Task}
use agent_inbox_question.Store.System.{Reach, here, later, Reach-trans, starting, publishing}
use agent_inbox_question.Runner.World.{Env, World, pass, put_db}
use agent_inbox_question.Runner.Resume.{
  ResumeKind, ResumeRequest, AttemptExpectation, start_claim, start_attempt, start_params,
}
use agent_inbox_question.Runner.Attempt.{run_attempt}
use agent_inbox_question.Runner.Attempt.Rule.{run_attempt_total}
use agent_inbox_question.Runner.Attempt.Laws.{run_attempt-Reach}
use agent_inbox_question.Runner.Launch.{
  Launched, bound_progress, drive, bind_and_drive, started, launch, launch_new, fresh_expectation,
  start_session, execute_task, execute, failed_expectation, launch_resumed, resume_candidate,
  resume,
}

-- A result is there, and the tables at its end are reached from `start`.
abbrev pub Arrives : Db → Launched → Type 0
Arrives start none = ⊥
Arrives start (some (r, w)) = Reach start w.db

arrived :
    (start : Db) (x : Launched)
    → Arrives start x
    → (r : Fallible AttemptOutcome) × (w : World) × (x ≡ some (r, w)) × Reach start w.db
arrived start none a = absurd a
arrived start (some (r, w)) a = (r, w, refl, a)

start_attempt-Reach :
    (dates : SqlDates) (fails : Faults) (clock : Time) (token : Option String) (lease : Duration)
    (s : SessionState) (expected : AttemptExpectation) (db : Db)
    → Reach db (start_attempt dates fails clock token lease s expected db).0.committed
unfolding start_attempt start_claim start_owned_attempt start_automatic_attempt
    start_interrupted_attempt
start_attempt-Reach dates fails clock token lease s expected db =
    claimed expected.claim (start_params expected s lease clock)
  where
    begun :
        (authorization : StartAuthorization) (params : StartAttemptParams)
        → Reach db (start_authorized dates fails clock token authorization params db).0.committed
    begun authorization params =
        later (here db) (starting dates fails clock token authorization params db _ refl)

    claimed :
        (kind : ResumeKind) (params : StartAttemptParams)
        → Reach db (start_claim kind dates fails clock token params db).0.committed
    claimed ResumeKind.manual_resume params = begun StartAuthorization.owner_start params
    claimed ResumeKind.scheduled_exhaustion_resume params =
        elim (Bool-cases (no_failed_run params)) [
          | inl e ↦ rw e (here db)
          | inr e ↦ rw e (begun StartAuthorization.automatic_start params)
        ]
    claimed ResumeKind.interrupted_recovery_resume params =
        elim (Bool-cases (no_failed_run params)) [
          | inl e ↦ rw e (here db)
          | inr e ↦ rw e (begun StartAuthorization.interrupted_start params)
        ]

module _ (env : Env) (others : (m : ℕ) (db : Db) → Reach db (env.others m db)) (start : Db) where
  pub pass-Reach : (w : World) → Reach start w.db → Reach start (pass env w).db
  unfolding pass
  pass-Reach w r = Reach-trans r (others w.moment w.db)

  run_attempt-Arrives :
      (run : Run) (task_id : ℕ) (s : SessionState) (w : World)
      → Reach start w.db
      → Arrives start (run_attempt env run task_id s w)
  run_attempt-Arrives run task_id s w r =
      let ((o, w'), e) = run_attempt_total env run task_id s w in
      rw e (Reach-trans r (run_attempt-Reach env run others task_id s w w' o e))

  drive-Arrives :
      (task_id : ℕ) (run : Run) (s : SessionState) (w : World) (x : Db × Fallible (Unit {0}))
      → Reach start x.0
      → Arrives start (drive env task_id run s w x)
  drive-Arrives task_id run s w (db, err e) r = r
  drive-Arrives task_id run s w (db, ok u) r = run_attempt-Arrives run task_id s (put_db w db) r

  bind_and_drive-Arrives :
      (task_id : ℕ) (run : Run) (s : SessionState) (w : World) (x : Fallible (Unit {0}))
      → Reach start w.db
      → Arrives start (bind_and_drive env task_id run s w x)
  bind_and_drive-Arrives task_id run s w (err e) r = r
  bind_and_drive-Arrives task_id run s w (ok u) r =
      let w' = pass env w in
      drive-Arrives task_id run s w' _ (
        later (pass-Reach w r) (
          publishing env.dates (env.sql_now w'.moment) (env.fails w'.moment)
            (bound_progress env run s) w'.db _ refl))

  started-Arrives :
      (task_id : ℕ) (s : SessionState) (w : World) (x : Handle × Fallible Run)
      → Reach start x.0.committed
      → Arrives start (started env task_id s w x)
  started-Arrives task_id s w (h, err e) r = r
  started-Arrives task_id s w (h, ok run) r =
      bind_and_drive-Arrives task_id run _ (pass env (put_db w h.committed)) _ (pass-Reach _ r)

  launch-Arrives :
      (s : SessionState) (expected : AttemptExpectation) (w : World)
      → Reach start w.db
      → Arrives start (launch env s expected w)
  unfolding launch
  launch-Arrives s expected w r =
      let w' = pass env w in
      let x =
        start_attempt env.dates (env.fails w'.moment) (env.clock w'.moment) (env.tokens w'.moment)
          env.lease_duration s expected w'.db in
      started-Arrives expected.task_id s w' x (
        Reach-trans (pass-Reach w r) (
          start_attempt-Reach env.dates (env.fails w'.moment) (env.clock w'.moment)
            (env.tokens w'.moment) env.lease_duration s expected w'.db))

  launch_new-Arrives :
      (task_id : ℕ) (w : World) (s : Fallible SessionState)
      → Reach start w.db
      → Arrives start (launch_new env task_id w s)
  launch_new-Arrives task_id w (err e) r = r
  launch_new-Arrives task_id w (ok s) r = launch-Arrives s (fresh_expectation env task_id) w r

  execute_task-Arrives :
      (task_id : ℕ) (w : World) (t : Fallible Task)
      → Reach start w.db
      → Arrives start (execute_task env task_id w t)
  execute_task-Arrives task_id w (err e) r = r
  execute_task-Arrives task_id w (ok t) r =
      elim (Bool-cases (same_task_status t.status TaskStatus.todo)) [
        | inl e ↦
            rw e (launch_new-Arrives task_id w (start_session env t w.moment (env.ids w.moment)) r)
        | inr e ↦ rw e r
      ]

  pub execute-Arrives :
      (task_id : ℕ) (w : World) → Reach start w.db → Arrives start (execute env task_id w)
  unfolding execute
  execute-Arrives task_id w r = execute_task-Arrives task_id (pass env w) _ (pass-Reach w r)

  launch_resumed-Arrives :
      (request : ResumeRequest) (candidate : ResumeCandidate) (w : World)
      (s : Fallible SessionState)
      → Reach start w.db
      → Arrives start (launch_resumed env request candidate w s)
  launch_resumed-Arrives request candidate w (err e) r = r
  launch_resumed-Arrives request candidate w (ok s) r =
      launch-Arrives s (failed_expectation env request candidate) w r

  resume_candidate-Arrives :
      (request : ResumeRequest) (w : World) (c : Fallible ResumeCandidate)
      → Reach start w.db
      → Arrives start (resume_candidate env request w c)
  resume_candidate-Arrives request w (err e) r = r
  resume_candidate-Arrives request w (ok c) r = launch_resumed-Arrives request c w _ r

  pub resume-Arrives :
      (request : ResumeRequest) (w : World)
      → Reach start w.db
      → Arrives start (resume env request w)
  unfolding resume
  resume-Arrives request w r = resume_candidate-Arrives request (pass env w) _ (pass-Reach w r)

-- Execute has a result, and what it does to the tables is a sequence of the store's writes, when
-- what the other processes do between its operations is one.
pub execute-Reach :
    (env : Env)
    → ((m : ℕ) (db : Db) → Reach db (env.others m db))
    → (task_id : ℕ) (w : World)
    → (r : Fallible AttemptOutcome) × (w' : World) × (execute env task_id w ≡ some (r, w'))
      × Reach w.db w'.db
execute-Reach env others task_id w =
    arrived w.db (execute env task_id w) (execute-Arrives env others w.db task_id w (here w.db))

-- resume has a result, and what it does to the tables is a sequence of the store's writes, when
-- what the other processes do between its operations is one.
pub resume-Reach :
    (env : Env)
    → ((m : ℕ) (db : Db) → Reach db (env.others m db))
    → (request : ResumeRequest) (w : World)
    → (r : Fallible AttemptOutcome) × (w' : World) × (resume env request w ≡ some (r, w'))
      × Reach w.db w'.db
resume-Reach env others request w =
    arrived w.db (resume env request w) (resume-Arrives env others w.db request w (here w.db))
