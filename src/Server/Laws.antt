-- ===== src/Server/Laws.antt =====
-- What the server does to the tables, and when it ends.
use agent_inbox_question.Base.{
  ℕ, zero, suc, String, Time, Option, none, some, ◌||◌, ok, err, ltb, ◌≡◌, refl, inl, inr,
  Bool-cases,
}
use agent_inbox_question.Domain.Status.{ExitReason}
use agent_inbox_question.Domain.Errors.{Error, Fallible, is_conflict, is_not_found}
use agent_inbox_question.Agent.Session.{SessionState}
use agent_inbox_question.Store.Database.{Db, Run, Handle}
use agent_inbox_question.Store.Finish.{
  recover_expired_attempt, FinishAttemptParams, expired_finish_authorization,
}
use agent_inbox_question.Store.Selection.{Continuation}
use agent_inbox_question.Store.Tasks.{Task}
use agent_inbox_question.Store.Continuations.{InitializedContinuation}
use agent_inbox_question.Store.System.{Reach, here, later, Reach-trans, finishing, initializing}
use agent_inbox_question.Runner.Recover.{recovery_plan, recover_with, recover_expired}
use agent_inbox_question.Runner.World.{Env, World, pass, put_db}
use agent_inbox_question.Runner.Launch.{Launched, resume_scheduled, resume_interrupted}
use agent_inbox_question.Runner.Launch.Laws.{Arrives, pass-Reach, resume-Arrives}
use agent_inbox_question.Server.{
  ServerRound, stop, again, waited, read_back, after_resume, continue_task, when_due, after_next,
  continue_phase, recovered, recover_run, after_expired, recover_phase, after_initialize,
  server_round, and_then, server_rounds,
}

recover-Reach :
    (env : Env) (m : ℕ) (run : Run) (now : Time) (load : String → Fallible SessionState)
    (persist : SessionState → Fallible (Unit {0})) (db : Db)
    → Reach db
        (recover_expired env.dates
          (env.sql_now m)
          (env.fails m)
          (env.clock m)
          env.json
          load
          persist
          run
          env.reset_interval
          now
          db).0.committed
unfolding recover_expired recover_expired_attempt
recover-Reach env m run now load persist db =
    planned (recovery_plan env.json load persist run env.reset_interval now)
  where
    planned :
        (plan : Fallible FinishAttemptParams)
        → Reach db
            (recover_with env.dates (env.sql_now m) (env.fails m) (env.clock m) db plan).0.committed
    planned (err e) = here db
    planned (ok params) = later (here db) (
        finishing (env.fails m) (expired_finish_authorization env.dates (env.sql_now m))
          (env.clock m) params db _ refl)

-- A round is there, and the tables at its end are reached from `start`.
abbrev pub Comes : Db → Option ServerRound → Type 0
Comes start none = ⊥
Comes start (some (stop r w)) = Reach start w.db
Comes start (some (again w)) = Reach start w.db

module _ (env : Env) (others : (m : ℕ) (db : Db) → Reach db (env.others m db)) (scan : ℕ)
    (start : Db) where
  waited-Comes :
      (w : World) (r : Fallible (Unit {0})) → Reach start w.db → Comes start (some (waited w r))
  waited-Comes w (ok u) r = r
  waited-Comes w (err Error.canceled) r = r
  waited-Comes w (err Error.panic) r = r
  waited-Comes w (err Error.invalid_transition) r = r
  waited-Comes w (err Error.conflict) r = r
  waited-Comes w (err Error.not_found) r = r
  waited-Comes w (err Error.not_eligible) r = r
  waited-Comes w (err Error.lease_lost) r = r
  waited-Comes w (err (Error.task_status_conflict c)) r = r
  waited-Comes w (err (Error.failure t)) r = r

  read_back-Comes :
      (w : World) (t : Fallible Task)
      → Reach start w.db
      → Comes start (some (read_back env scan w t))
  read_back-Comes w (ok t) r = r
  read_back-Comes w (err e) r = r

  after_resume-Comes :
      (task_id : ℕ) (x : Launched) → Arrives start x → Comes start (after_resume env scan task_id x)
  after_resume-Comes task_id none a = absurd a
  after_resume-Comes task_id (some (err e, w)) a = elim (Bool-cases (is_conflict e)) [
    | inl c ↦ rw c a
    | inr c ↦ rw c a
  ]
  after_resume-Comes task_id (some (ok o, w)) a =
      read_back-Comes (pass env w) _ (pass-Reach env others start w a)

  continue_task-Comes :
      (c : Continuation) (w : World) (e : ExitReason)
      → Reach start w.db
      → Comes start (continue_task env scan c w e)
  unfolding resume_scheduled resume_interrupted
  continue_task-Comes c w ExitReason.token_budget_exhausted r =
      after_resume-Comes c.task_id _ (resume-Arrives env others start _ w r)
  continue_task-Comes c w ExitReason.interrupted r =
      after_resume-Comes c.task_id _ (resume-Arrives env others start _ w r)
  continue_task-Comes c w ExitReason.none r = r
  continue_task-Comes c w ExitReason.completed r = r
  continue_task-Comes c w ExitReason.agent_error r = r
  continue_task-Comes c w (ExitReason.other t) r = r

  after_next-Comes :
      (w : World) (c : Fallible Continuation)
      → Reach start w.db
      → Comes start (after_next env scan w c)
  unfolding when_due
  after_next-Comes w (err e) r = elim (Bool-cases (is_not_found e)) [
    | inl n ↦ rw n (waited-Comes w (env.waits w.moment scan) r)
    | inr n ↦ rw n r
  ]
  after_next-Comes w (ok c) r = elim (Bool-cases (ltb (env.clock w.moment) c.eligible_at)) [
    | inl b ↦ rw b (waited-Comes w _ r)
    | inr b ↦ rw b (continue_task-Comes c w c.exit_reason r)
  ]

  continue_phase-Comes : (w : World) → Reach start w.db → Comes start (continue_phase env scan w)
  unfolding continue_phase
  continue_phase-Comes w r = after_next-Comes (pass env w) _ (pass-Reach env others start w r)

  recovered-Comes :
      (w : World) (x : Handle × Fallible (Unit {0}))
      → Reach start x.0.committed
      → Comes start (some (recovered env scan w x))
  recovered-Comes w (h, ok u) r = r
  recovered-Comes w (h, err e) r = r

  after_expired-Comes :
      (w : World) (now : Time) (x : Fallible Run)
      → Reach start w.db
      → Comes start (after_expired env scan w now x)
  unfolding recover_run
  after_expired-Comes w now (err e) r = elim (Bool-cases (is_not_found e)) [
    | inl n ↦ rw n (continue_phase-Comes w r)
    | inr n ↦ rw n r
  ]
  after_expired-Comes w now (ok run) r =
      let w' = pass env w in
      recovered-Comes w'
        (recover_expired env.dates (env.sql_now w'.moment) (env.fails w'.moment)
          (env.clock w'.moment) env.json (env.loads w'.moment) (λ s. env.files w'.moment) run
          env.reset_interval now w'.db)
        (Reach-trans (pass-Reach env others start w r) (
          recover-Reach env w'.moment run now (env.loads w'.moment) (λ s. env.files w'.moment)
            w'.db))

  recover_phase-Comes : (w : World) → Reach start w.db → Comes start (recover_phase env scan w)
  unfolding recover_phase
  recover_phase-Comes w r = after_expired-Comes (pass env w) _ _ (pass-Reach env others start w r)

  after_initialize-Comes :
      (w : World) (x : Db × Fallible InitializedContinuation)
      → Reach start x.0
      → Comes start (after_initialize env scan w x)
  after_initialize-Comes w (db, ok i) r = r
  after_initialize-Comes w (db, err e) r = elim (Bool-cases (is_not_found e || is_conflict e)) [
    | inl n ↦ rw n (recover_phase-Comes (put_db w db) r)
    | inr n ↦ rw n r
  ]

  server_round-Comes : (w : World) → Reach start w.db → Comes start (server_round env scan w)
  unfolding server_round
  server_round-Comes w r = elim (Bool-cases (env.done w.moment)) [
    | inl d ↦ rw d r
    | inr d ↦
        let w' = pass env w in
        rw d (
          after_initialize-Comes w' _ (
            later (pass-Reach env others start w r)
              (initializing (env.fails w'.moment) env.reset_interval w'.db _ refl)))
  ]

  server_rounds_come :
      (n : ℕ) (w : World) → Reach start w.db → Comes start (server_rounds env scan n w)
  unfolding server_rounds
  server_rounds_come zero w r = r
  server_rounds_come (suc n) w r =
      onwards (server_round env scan w) (server_round-Comes w r)
        (λ w' r'. server_rounds_come n w' r')
    where
      onwards :
          (x : Option ServerRound)
          → Comes start x
          → ((w' : World) → Reach start w'.db → Comes start (server_rounds env scan n w'))
          → Comes start (and_then env scan (server_rounds env scan n) x)
      onwards none c more = c
      onwards (some (stop y w')) c more = c
      onwards (some (again w')) c more = more w' c

abbrev pub world_after : ServerRound → World
world_after (stop r w) = w
world_after (again w) = w

-- Any number of rounds of the server come to an end, and what they do to the tables is a sequence
-- of the store's writes, when what the other processes do between its operations is one.
pub server_rounds-Reach :
    (env : Env)
    → ((m : ℕ) (db : Db) → Reach db (env.others m db))
    → (scan n : ℕ) (w : World)
    → (x : ServerRound) × (server_rounds env scan n w ≡ some x) × Reach w.db (world_after x).db
server_rounds-Reach env others scan n w =
    come (server_rounds env scan n w) (server_rounds_come env others scan w.db n w (here w.db))
  where
    come :
        (x : Option ServerRound)
        → Comes w.db x
        → (y : ServerRound) × (x ≡ some y) × Reach w.db (world_after y).db
    come none c = absurd c
    come (some (stop r w')) c = (stop r w', refl, c)
    come (some (again w')) c = (again w', refl, c)
