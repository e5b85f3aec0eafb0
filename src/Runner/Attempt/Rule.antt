-- ===== src/Runner/Attempt/Rule.antt =====
-- An attempt has a result, and a rule for what holds of it and of the tables at its end.
use agent_inbox_question.Base.{ℕ, ◌≡◌, refl, Option, none, some, true, ok, err, is_ok, arith}
use agent_inbox_question.Domain.Errors.{Error, Fallible}
use agent_inbox_question.Domain.Status.{AttemptOutcome}
use agent_inbox_question.Agent.Session.{SessionState}
use agent_inbox_question.Agent.Run.{Outcome, run_fenced}
use agent_inbox_question.Agent.Run.Rule.{run_total}
use agent_inbox_question.Agent.Run.Surroundings.{Left}
use agent_inbox_question.Store.Database.{Db, Run, Handle}
use agent_inbox_question.Store.Finish.{FinishAttemptParams, finish_attempt}
use agent_inbox_question.Runner.World.{Env, World, pass}
use agent_inbox_question.Runner.Attempt.{
  Attempt, begun, interlude, attempt_host, reported, final_write, write_final, conclude, settle,
  run_attempt,
}
use agent_inbox_question.Runner.Attempt.Keeps.{Safe, pass_keeps, interlude_keeps, session_keeps}

-- An attempt has a result, whatever its surroundings do.
pub run_attempt_total :
    (env : Env) (run : Run) (task_id : ℕ) (s : SessionState) (w : World)
    → (x : Fallible AttemptOutcome × World) × (run_attempt env run task_id s w ≡ some x)
unfolding run_attempt run_fenced attempt_host
run_attempt_total env r task_id s w =
    let ((a, s', w'), e) = run_total (attempt_host env r) s (begun w) in settled _ a s' w' e
  where
    settled :
        (x : Option (Fallible Outcome × SessionState × Attempt)) (a : Fallible Outcome)
        (s' : SessionState) (w' : Attempt)
        → x ≡ some (a, s', w')
        → (y : Fallible AttemptOutcome × World) × (settle env r task_id s.next_step x ≡ some y)
    settled none a s' w' e = cc
    settled (some x) a s' w' e = (_, refl)

-- What holds of the result and of the tables at its end.
abbrev pub Ends :
    (Fallible AttemptOutcome → Db → Type 0) → Option (Fallible AttemptOutcome × World) → Type 0
Ends Q none = Unit {0}
Ends Q (some (r, w)) = Q r w.db

module _ (env : Env) (run : Run) (P : Db → Type 0) (safe : Safe env run P)
    (Q : Fallible AttemptOutcome → Db → Type 0)
    (failed : (e : Error) (db : Db) → P db → Q (err e) db)
    (refused : (params : FinishAttemptParams) (m : ℕ) (db : Db) (h : Handle) (e : Error)
      → params.run_id ≡ run.id
      → P db
      → finish_attempt env.dates (env.sql_now m) (env.fails m) (env.clock m) params db ≡ (h, err e)
      → Q (err e) h.committed)
    (made : (params : FinishAttemptParams) (m : ℕ) (db : Db) (h : Handle)
        (o : Fallible AttemptOutcome)
      → params.run_id ≡ run.id
      → P db
      → finish_attempt env.dates (env.sql_now m) (env.fails m) (env.clock m) params db ≡ (h, ok tt)
      → (is_ok o ≡ true → o ≡ ok params.completion.outcome)
      → Q o h.committed) where
  reported-Ends :
      (params : FinishAttemptParams) (a : Attempt) (x : Handle × Fallible (Unit {0}))
      → params.run_id ≡ run.id
      → P a.world.db
      → finish_attempt env.dates
          (env.sql_now a.world.moment)
          (env.fails a.world.moment)
          (env.clock a.world.moment)
          params
          a.world.db
        ≡ x
      → let y = reported env run a params.completion.outcome x in Q y.0 y.1.db
  reported-Ends params a (h, err e) i p f = refused params a.world.moment a.world.db h e i p f
  reported-Ends params a (h, ok tt) i p f =
      made params a.world.moment a.world.db h _ i p f (λ k. ground arith)

  write_final-Ends :
      (a : Attempt) (params : Fallible FinishAttemptParams)
      → P a.world.db
      → ((p : FinishAttemptParams) → params ≡ ok p → p.run_id ≡ run.id)
      → let y = write_final env run a params in Q y.0 y.1.db
  unfolding write_final
  write_final-Ends a (err e) p i = failed e a.world.db p
  write_final-Ends a (ok params) p i =
      reported-Ends params (record a { world = pass env a.world }) _ (i params refl)
        (pass_keeps env run P safe a.world p) refl

  final_write-run :
      (task_id start_step : ℕ) (outcome : Outcome) (s : SessionState) (a : Attempt)
      (p : FinishAttemptParams)
      → final_write env run task_id start_step outcome s a ≡ ok p
      → p.run_id ≡ run.id
  unfolding final_write
  final_write-run task_id start_step outcome s a p h = ground arith

  conclude-Ends :
      (task_id start_step : ℕ) (s : SessionState) (a : Attempt) (renewal : Option Error)
      (r : Fallible Outcome)
      → P a.world.db
      → let y = conclude env run task_id start_step s a renewal r in Q y.0 y.1.db
  unfolding conclude
  conclude-Ends task_id start_step s a (some e) r p = failed e a.world.db p
  conclude-Ends task_id start_step s a none (err e) p = failed e a.world.db p
  conclude-Ends task_id start_step s a none (ok outcome) p =
      write_final-Ends a _ p (final_write-run task_id start_step outcome s a)

  settle-Ends :
      (task_id start_step : ℕ) (x : Option (Fallible Outcome × SessionState × Attempt))
      → Left (λ a. P a.world.db) x
      → Ends Q (settle env run task_id start_step x)
  unfolding settle
  settle-Ends task_id start_step none p = tt
  settle-Ends task_id start_step (some (r, s, a)) p =
      conclude-Ends task_id start_step s (interlude env run (record a { canceled = true })) _ r
        (interlude_keeps env run P safe (record a { canceled = true }) p)

  pub run_attempt_rule :
      (task_id : ℕ) (s : SessionState) (w : World)
      → P w.db
      → Ends Q (run_attempt env run task_id s w)
  unfolding run_attempt
  run_attempt_rule task_id s w p =
      settle-Ends task_id s.next_step _ (session_keeps env run P safe s w p)
