-- ===== src/Runner/Launch/Liveness.antt =====
-- Execute completes a task that waits, where the process is alone and nothing fails.
use agent_inbox_question.Base.{
  ℕ, suc, ◌+◌, ◌≤◌, ◌≡◌, refl, subst, true, ◌&&◌, Option, none, some, is_some, ok, err, arith, ◌==◌,
  String, [], add_time,
}
use agent_inbox_question.Domain.Status.{AttemptOutcome}
use agent_inbox_question.Domain.Completion.{known_origin}
use agent_inbox_question.Domain.Errors.{Fallible}
use agent_inbox_question.Agent.Plan.{parse_directives}
use agent_inbox_question.Agent.Session.{SessionState, initial_state, bind_attempt}
use agent_inbox_question.Agent.Run.Liveness.{initial_state_covered}
use agent_inbox_question.Agent.Run.Processed.{cost_from}
use agent_inbox_question.Agent.Run.Results.{IsSound}
use agent_inbox_question.Store.Table.{count_where, count_where_mono}
use agent_inbox_question.Store.Database.{Db, Run, SqlCall, lease_live}
use agent_inbox_question.Store.Invariant.{IsConsistent}
use agent_inbox_question.Store.Tasks.{Task, get_task}
use agent_inbox_question.Runner.Resume.{lease_or_default, start_attempt}
use agent_inbox_question.Runner.World.{Env, World, pass, put_db}
use agent_inbox_question.Runner.Attempt.Calm.{IsOwned, progress_calm}
use agent_inbox_question.Runner.Attempt.Completion.{is_done_task, is_paid_run, is_succeeded}
use agent_inbox_question.Runner.Attempt.Liveness.{EndsDone, run_attempt-Completes}
use agent_inbox_question.Runner.Launch.{
  Launched, bound_progress, drive, bind_and_drive, started, launch, fresh_expectation,
  start_session, launch_new, execute_task, execute,
}
use agent_inbox_question.Runner.Launch.Alone.{
  IsAlone, IsAlone-IsCalm, IsWaiting, first_run, first_db, start_calm, first-IsOwned,
}

module _ (env : Env) (task_id : ℕ) (alone : IsAlone env) where
  pass-alone : (w : World) → pass env w ≡ record { db = w.db; moment = w.moment + 1 }
  unfolding pass
  pass-alone w = rw (alone.alone w.moment w.db) refl

  -- What a launch that completes gives.
  abbrev pub Completed : Run → ℕ → Launched → Type 0
  Completed run tokens x =
      (y : Fallible AttemptOutcome × World) × (x ≡ some y)
      × EndsDone env run task_id (IsAlone-IsCalm env run task_id alone) tokens y

  -- A session that is ready: sound, of a known origin, no failure planned, its plan covered.
  record IsReady (s : SessionState) : Type 0 where
    pub sound : IsSound s
    pub known : known_origin s.attempt_window_origin ≡ true
    pub no_failure : s.errored_at ≡ 0
    pub covered : cost_from s.steps s.next_step ≤ s.tokens_remaining

  module _ (run : Run) (s : SessionState) (ready : IsReady s) where
    tokens : ℕ
    tokens = s.tokens_used + cost_from s.steps s.next_step

    drive_calm :
        (w : World) (x : Db × Fallible (Unit {0}))
        → x.1 ≡ ok tt
        → IsOwned env run task_id x.0 w.moment
        → IsOwned env run task_id x.0 (w.moment + 1)
        → Completed run tokens (drive env task_id run s w x)
    unfolding tokens
    drive_calm w (db, err e) h now next = cc
    drive_calm w (db, ok u) h now next =
        run_attempt-Completes env run task_id (IsAlone-IsCalm env run task_id alone) s (put_db w db)
          now next ready.sound ready.known ready.no_failure ready.covered

    bind_calm :
        (w : World)
        → IsOwned env run task_id w.db (w.moment + 1)
        → IsOwned env run task_id w.db (w.moment + 1 + 1)
        → Completed run tokens (bind_and_drive env task_id run s w (ok tt))
    unfolding tokens
    bind_calm w now next =
        let (e, kept) =
          progress_calm env run task_id (IsAlone-IsCalm env run task_id alone) w.db (w.moment + 1)
            (bound_progress env run s) refl refl now in
        rw (pass-alone w)
          (drive_calm (record { db = w.db; moment = w.moment + 1 }) _ e (kept _ now) (kept _ next))

  IsReady-bound :
      (run_id : ℕ) (owner : String) (s : SessionState)
      → s.attempt_start_step ≤ s.next_step
      → IsReady s
      → IsReady (bind_attempt run_id owner s)
  unfolding bind_attempt
  IsReady-bound run_id owner s h v = record {
    sound = record { in_plan = v.sound.in_plan; begun = omega arith; balanced = v.sound.balanced };
    known = v.known;
    no_failure = v.no_failure;
    covered = v.covered;
  }

  IsReady-new :
      (id title description : String)
      → (parse_directives description).steps ≡ none
      → (parse_directives description).fail_at ≡ none
      → (parse_directives description).budget ≡ none
      → IsReady (initial_state env.quote id title description [])
  unfolding initial_state
  IsReady-new id title description no_steps no_fail no_budget = record {
    sound = record { in_plan = omega arith; begun = omega arith; balanced = omega arith };
    known = refl;
    no_failure = rw no_fail refl;
    covered =
        initial_state_covered env.quote id title description [] no_steps no_budget (omega arith);
  }

  -- The task is done and the run, by its id, a success.
  abbrev pub Finished : ℕ → Fallible AttemptOutcome × World → Type 0
  Finished id y =
      (y.0 ≡ ok AttemptOutcome.completed)
      × (1 ≤ count_where (is_done_task task_id) y.1.db.tasks)
      × (1 ≤ count_where (λ r. r.id == id && is_succeeded r.status) y.1.db.runs)

  abbrev pub Finishes : ℕ → Launched → Type 0
  Finishes id x = (y : Fallible AttemptOutcome × World) × (x ≡ some y) × Finished id y

  paid-Finishes :
      (run : Run) (tokens : ℕ) (x : Launched) → Completed run tokens x → Finishes run.id x
  paid-Finishes run n x (y, e, (c, (done, paid))) =
      let wider =
        count_where_mono (λ r. r.id == run.id && is_succeeded r.status) (is_paid_run run.id n)
          (λ r h. ground (arith, h)) y.1.db.runs in
      (y, e, (c, done, omega (arith, wider, paid)))

  module _ (s : SessionState) (db : Db) (task : Task) (consistent : IsConsistent db)
      (waiting : IsWaiting task_id task db) (ready : IsReady s)
      (begun : s.attempt_start_step ≤ s.next_step) where
    owned_later :
        (m : ℕ) (token : String) (k j : ℕ)
        → k ≤ 4
        → m + k ≡ j
        → IsOwned env
            (first_run env task_id alone s db task consistent waiting m token)
            task_id
            (first_db env task_id alone s db task consistent waiting m token)
            j
    owned_later m token k j h e =
        first-IsOwned env task_id alone s db task consistent waiting m token j (
          subst
            (λ (i : ℕ).
              lease_live env.dates (env.sql_now i)
                (some (add_time (env.clock m) (lease_or_default env.lease_duration)))
              ≡ true)
            e (alone.begins m k h))

    bound_calm :
        (m : ℕ) (token : String) (w : World)
        → w ≡ record {
          db = first_db env task_id alone s db task consistent waiting m token;
          moment = m + 1;
        }
        → let run = first_run env task_id alone s db task consistent waiting m token in
          Finishes run.id (
            bind_and_drive env task_id run
              (bind_attempt run.id run.owner_token s)
              w
              (env.files w.moment))
    bound_calm m token w e =
        let run = first_run env task_id alone s db task consistent waiting m token in
        rw (e, alone.written (m + 1))
          (paid-Finishes run _ _ (
            bind_calm run (bind_attempt run.id token s) (IsReady-bound run.id token s begun ready)
              (record {
                db = first_db env task_id alone s db task consistent waiting m token;
                moment = m + 1;
              })
              (owned_later m token 2 _ (omega arith) (omega arith))
              (owned_later m token 3 _ (omega arith) (omega arith))))

    started_calm :
        (m : ℕ) (token : Option String) (w : World)
        → is_some token ≡ true
        → w ≡ record { db = db; moment = m }
        → Finishes (suc db.run_seq) (
            started env task_id s w (
              start_attempt env.dates
                (env.fails w.moment)
                (env.clock w.moment)
                token
                env.lease_duration
                s
                (fresh_expectation env task_id)
                w.db))
    started_calm m none w h e = cc
    started_calm m (some token) w h e =
        rw
          (e, start_calm env task_id alone s db task consistent waiting m token (alone.no_faults m))
          (bound_calm m token _ (
            pass-alone (record {
              db = first_db env task_id alone s db task consistent waiting m token;
              moment = m;
            })))

    launch_calm :
        (m : ℕ)
        → Finishes
            (suc db.run_seq)
            (launch env s (fresh_expectation env task_id) (record { db = db; moment = m }))
    unfolding launch
    launch_calm m =
        started_calm (m + 1) _ (pass env (record { db = db; moment = m })) (alone.owned _)
          (pass-alone (record { db = db; moment = m }))

  module _ (db : Db) (task : Task) (consistent : IsConsistent db)
      (waiting : IsWaiting task_id task db)
      (no_steps : (parse_directives task.description).steps ≡ none)
      (no_fail : (parse_directives task.description).fail_at ≡ none)
      (no_budget : (parse_directives task.description).budget ≡ none) where
    begun_new :
        (id : String)
        → let s = initial_state env.quote id task.title task.description [] in
          s.attempt_start_step ≤ s.next_step
    unfolding initial_state
    begun_new id = omega arith

    new_calm :
        (m : ℕ) (id : Option String)
        → is_some id ≡ true
        → Finishes
            (suc db.run_seq)
            (launch_new env task_id (record { db = db; moment = m }) (start_session env task m id))
    new_calm m none h = cc
    new_calm m (some id) h = rw (alone.written m) (
        launch_calm (initial_state env.quote id task.title task.description []) db task consistent
          waiting (IsReady-new id task.title task.description no_steps no_fail no_budget)
          (begun_new id) m)

    get_calm : (m : ℕ) → get_task (env.fails m) task_id db ≡ ok task
    unfolding get_task
    get_calm m =
        rw (alone.no_faults m SqlCall.conflict_query, waiting.found, get_task) waiting.scanned

    executed_calm :
        (m : ℕ) (w : World)
        → w ≡ record { db = db; moment = m }
        → Finishes
            (suc db.run_seq)
            (execute_task env task_id w (get_task (env.fails w.moment) task_id w.db))
    executed_calm m w e = rw (e, get_calm m, waiting.todo) (new_calm m _ (alone.named m))

  -- Where the process is alone, no call and no write of a file or of the output fails, ids and tokens
  -- are given, the context lives, the ticker of the renewals fires in front of every operation, a
  -- renewed lease lasts two operations longer and the first one four, Execute of a task that waits
  -- without a run, in consistent tables, with no directive of steps, failure or budget in its
  -- description, reports completion; then a row of the task is done, and a row under the next id of a
  -- run is a success.
  pub execute-Finishes :
      (task : Task) (w : World)
      → IsConsistent w.db
      → IsWaiting task_id task w.db
      → (parse_directives task.description).steps ≡ none
      → (parse_directives task.description).fail_at ≡ none
      → (parse_directives task.description).budget ≡ none
      → Finishes (suc w.db.run_seq) (execute env task_id w)
  unfolding execute
  execute-Finishes task w consistent waiting no_steps no_fail no_budget =
      executed_calm w.db task consistent waiting no_steps no_fail no_budget (w.moment + 1)
        (pass env w) (pass-alone w)
