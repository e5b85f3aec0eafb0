-- ===== src/Server.antt =====
-- internal/server/server.go: the loop of Run, a round at a time. Logging is left out; nothing but
-- the calls and the waits of the loop changes the world.
pub mod Laws
use agent_inbox_question.Base.{
  ℕ, zero, suc, ◌-◌, Time, Duration, ◌||◌, not, Option, none, some, is_positive, ltb, if◌then◌else◌,
  ok, err,
}
use agent_inbox_question.Domain.Status.{ExitReason, AttemptOutcome}
use agent_inbox_question.Domain.Errors.{Error, Fallible, is_conflict, is_not_found}
use agent_inbox_question.Store.Database.{Db, Run, Handle}
use agent_inbox_question.Store.Selection.{Continuation, next, next_expired}
use agent_inbox_question.Store.Tasks.{Task, get_task}
use agent_inbox_question.Store.Continuations.{InitializedContinuation, initialize_unscheduled}
use agent_inbox_question.Runner.Recover.{recover_expired}
use agent_inbox_question.Runner.World.{Env, World, pass, put_db}
use agent_inbox_question.Runner.Launch.{Launched, resume_scheduled, resume_interrupted}

-- A round ends the server or asks for another.
pub data ServerRound : Type 0 where
  stop : Fallible (Unit {0}) → World → ServerRound
  again : World → ServerRound

-- The end of a wait: the server ends quietly where its context was canceled.
abbrev pub waited : World → Fallible (Unit {0}) → ServerRound
waited w (ok _) = again w
waited w (err Error.canceled) = stop (ok tt) w
waited w (err e) = stop (err e) w

-- `min(a, b)` of two lengths of time.
abbrev pub shorter : ℕ → ℕ → ℕ
shorter a b = if ltb a b then a else b

-- `scan` is the scan interval.
module _ (env : Env) (scan : ℕ) where
  -- The task is read back for the log; an error of that ends the server.
  abbrev pub read_back : World → Fallible Task → ServerRound
  read_back w (err e) = stop (err e) w
  read_back w (ok task) = again w

  -- After a resume: a conflict is another process's doing, and the server looks again.
  abbrev pub resumed : ℕ → Fallible AttemptOutcome × World → ServerRound
  resumed task_id (err e, w) = if is_conflict e then again w else stop (err e) w
  resumed task_id (ok _, w) =
      let w' = pass env w in read_back w' (get_task (env.fails w'.moment) task_id w'.db)

  abbrev pub after_resume : ℕ → Launched → Option ServerRound
  after_resume task_id none = none
  after_resume task_id (some x) = some (resumed task_id x)

  abbrev pub continue_task : Continuation → World → ExitReason → Option ServerRound
  continue_task c w ExitReason.token_budget_exhausted =
      after_resume c.task_id (resume_scheduled env c.task_id c.run_id w)
  continue_task c w ExitReason.interrupted =
      after_resume c.task_id (resume_interrupted env c.task_id c.run_id w)
  continue_task c w _ = some (stop (err (Error.failure "unsupported exit reason")) w)

  -- `untilEligible > 0` at the server's clock.
  unfoldable pub when_due : Continuation → World → Option ServerRound
  when_due c w =
      let now = env.clock w.moment in
      if ltb now c.eligible_at
      then some (waited w (env.waits w.moment (shorter (c.eligible_at - now) scan)))
      else continue_task c w c.exit_reason

  abbrev pub after_next : World → Fallible Continuation → Option ServerRound
  after_next w (err e) =
      if is_not_found e then some (waited w (env.waits w.moment scan)) else some (stop (err e) w)
  after_next w (ok c) = when_due c w

  unfoldable pub continue_phase : World → Option ServerRound
  unfolding when_due pass
  continue_phase w =
      let w' = pass env w in after_next w' (next env.dates (env.fails w'.moment) w'.db)

  abbrev pub recovered : World → Handle × Fallible (Unit {0}) → ServerRound
  recovered w (h, err e) = stop (err e) (put_db w h.committed)
  recovered w (h, ok _) = again (put_db w h.committed)

  unfoldable pub recover_run : World → Time → Run → ServerRound
  unfolding pass
  recover_run w now run =
      let w' = pass env w in
      recovered w' (
        recover_expired env.dates (env.sql_now w'.moment) (env.fails w'.moment)
          (env.clock w'.moment) env.json (env.loads w'.moment) (λ s. env.files w'.moment) run
          env.reset_interval now w'.db)

  abbrev pub after_expired : World → Time → Fallible Run → Option ServerRound
  after_expired w now (err e) = if is_not_found e then continue_phase w else some (stop (err e) w)
  after_expired w now (ok run) = some (recover_run w now run)

  -- `now` is read in front of the query.
  unfoldable pub recover_phase : World → Option ServerRound
  unfolding recover_run continue_phase pass
  recover_phase w =
      let w' = pass env w in
      after_expired w' (env.clock w.moment)
        (next_expired env.dates (env.sql_now w'.moment) (env.fails w'.moment) w'.db)

  abbrev pub after_initialize : World → Db × Fallible InitializedContinuation → Option ServerRound
  after_initialize w (db, ok i) = some (again (put_db w db))
  after_initialize w (db, err e) =
      if is_not_found e || is_conflict e
      then recover_phase (put_db w db)
      else some (stop (err e) (put_db w db))

  unfoldable pub server_round : World → Option ServerRound
  unfolding recover_phase pass
  server_round w =
      let w' = pass env w in
      if env.done w.moment
      then some (stop (ok tt) w)
      else after_initialize w'
          (initialize_unscheduled (env.fails w'.moment) env.reset_interval w'.db)

  -- The first rounds of the loop, as many as are asked for and no more than the server runs.
  abbrev pub and_then : (World → Option ServerRound) → Option ServerRound → Option ServerRound
  and_then more none = none
  and_then more (some (stop r w)) = some (stop r w)
  and_then more (some (again w)) = more w

  unfoldable pub server_rounds : ℕ → World → Option ServerRound
  unfolding server_round
  server_rounds zero w = some (again w)
  server_rounds (suc n) w = and_then (server_rounds n) (server_round w)

-- New: the configuration that the server accepts. The repositories are never missing here.
unfoldable pub new_server : Duration → Duration → Fallible (Duration × Duration)
new_server reset scan =
    if not (is_positive reset)
    then err (Error.failure "reset interval must be positive")
    else if not (is_positive scan)
    then err (Error.failure "scan interval must be positive")
    else ok (reset, scan)
