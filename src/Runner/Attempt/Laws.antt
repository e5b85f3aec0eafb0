-- ===== src/Runner/Attempt/Laws.antt =====
-- What an attempt does to the tables, and when it reports success.
use agent_inbox_question.Base.{
  ℕ, ◌≡◌, refl, sym, ◌∙◌, Option, some, true, false, ok, err, is_ok, subst, ap,
}
use agent_inbox_question.Domain.Errors.{Fallible}
use agent_inbox_question.Domain.Status.{AttemptOutcome}
use agent_inbox_question.Agent.Session.{SessionState}
use agent_inbox_question.Store.Table.{count_where}
use agent_inbox_question.Store.Database.{Db, Run, Handle}
use agent_inbox_question.Store.Finish.{
  FinishAttemptParams, finish_attempt, owner_finish_authorization,
}
use agent_inbox_question.Store.Invariant.{IsConsistent}
use agent_inbox_question.Store.Fencing.{running_id, finished_not_running, finish_over}
use agent_inbox_question.Store.System.{
  Reach, here, later, Reach-trans, Reach-IsConsistent, renewing, publishing, finishing,
}
use agent_inbox_question.Store.System.Final.{IsFinal, Reach-IsFinal}
use agent_inbox_question.Runner.World.{Env, World}
use agent_inbox_question.Runner.Attempt.{run_attempt}
use agent_inbox_question.Runner.Attempt.Rule.{Ends, run_attempt_rule}
use agent_inbox_question.Runner.Attempt.Keeps.{Safe}

-- What is proved of an attempt, at the result that it has.
Ends-at :
    (Q : Fallible AttemptOutcome → Db → Type 0) (x : Option (Fallible AttemptOutcome × World))
    (r : Fallible AttemptOutcome) (w : World)
    → Ends Q x
    → x ≡ some (r, w)
    → Q r w.db
Ends-at Q x r w h e = subst (Ends Q) e h

module _ (env : Env) (run : Run) (others : (m : ℕ) (db : Db) → Reach db (env.others m db)) where
  module _ (start : Db) where
    Reach-Safe : Safe env run (Reach start)
    Reach-Safe = record {
      by_others = λ m db r. Reach-trans r (others m db);
      by_renewal = λ m d db r.
          later r
            (renewing env.dates (env.sql_now m) (env.fails m) run.id run.owner_token d db _ refl);
      by_progress = λ m progress db i r.
          later r (publishing env.dates (env.sql_now m) (env.fails m) progress db _ refl);
    }

    finish-Reach :
        (params : FinishAttemptParams) (m : ℕ) (db : Db) (h : Handle) (x : Fallible (Unit {0}))
        → Reach start db
        → finish_attempt env.dates (env.sql_now m) (env.fails m) (env.clock m) params db ≡ (h, x)
        → Reach start h.committed
    unfolding finish_attempt
    finish-Reach params m db h x r e = later r (
        finishing (env.fails m) (owner_finish_authorization env.dates (env.sql_now m)) (env.clock m)
          params db h.committed (ap (λ y. y.0.committed) e))

  -- Whatever an attempt does to the tables is a sequence of the store's writes, with success or
  -- error, when what the other processes do between its operations is one.
  pub run_attempt-Reach :
      (task_id : ℕ) (s : SessionState) (w w' : World) (r : Fallible AttemptOutcome)
      → run_attempt env run task_id s w ≡ some (r, w')
      → Reach w.db w'.db
  run_attempt-Reach task_id s w w' r e =
      Ends-at (λ r db. Reach w.db db) _ r w'
        (run_attempt_rule env run (Reach w.db) (Reach-Safe w.db) (λ r db. Reach w.db db)
          (λ e db c. c) (λ params m db h e i c f. finish-Reach w.db params m db h (err e) c f)
          (λ params m db h o i c f g. finish-Reach w.db params m db h (ok tt) c f) task_id s w
          (here w.db))
        e

  -- The run is not running any more.
  abbrev pub Over : Db → Type 0
  Over db = count_where (running_id run.id) db.runs ≡ 0

  IsFinal-Safe : Safe env run (IsFinal run.id)
  IsFinal-Safe = record {
    by_others = λ m db v. Reach-IsFinal run.id (others m db) v;
    by_renewal = λ m d db v.
        Reach-IsFinal run.id
          (later (here db)
            (renewing env.dates (env.sql_now m) (env.fails m) run.id run.owner_token d db _ refl))
          v;
    by_progress = λ m progress db i v.
        Reach-IsFinal run.id
          (later (here db) (publishing env.dates (env.sql_now m) (env.fails m) progress db _ refl))
          v;
  }

  -- What the final write says of the run, from its result.
  module _ (params : FinishAttemptParams) (m : ℕ) (db : Db) (h : Handle)
      (i : params.run_id ≡ run.id) where
    made_not-Over :
        Over db
        → finish_attempt env.dates (env.sql_now m) (env.fails m) (env.clock m) params db
          ≡ (h, ok tt)
        → ⊥
    unfolding finish_attempt
    made_not-Over o f = cc (
        sym (ap (λ y. is_ok y.1) f)
        ∙ finish_over (env.fails m) (owner_finish_authorization env.dates (env.sql_now m))
            (env.clock m) params db (rw i o))

    made-Over :
        IsConsistent db
        → finish_attempt env.dates (env.sql_now m) (env.fails m) (env.clock m) params db
          ≡ (h, ok tt)
        → Over h.committed
    unfolding finish_attempt
    made-Over c f =
        subst (λ y. Over y.0.committed) f
          (rw (← i) (
            finished_not_running (env.fails m)
              (owner_finish_authorization env.dates (env.sql_now m)) (env.clock m) params db c
              (ap (λ y. y.1) f)))

  -- A worker whose run is over when its attempt goes on, because recovery finalized it say, never
  -- reports success, when the other processes make writes of the store only.
  pub run_attempt_fenced :
      (task_id : ℕ) (s : SessionState) (w w' : World) (r : Fallible AttemptOutcome)
      → IsFinal run.id w.db
      → run_attempt env run task_id s w ≡ some (r, w')
      → is_ok r ≡ false
  run_attempt_fenced task_id s w w' r v e =
      Ends-at (λ r db. is_ok r ≡ false) _ r w'
        (run_attempt_rule env run (IsFinal run.id) IsFinal-Safe (λ r db. is_ok r ≡ false)
          (λ e db v. refl) (λ params m db h e i v f. refl)
          (λ params m db h o i v f g. absurd (made_not-Over params m db h i v.over f)) task_id s w
          v)
        e

  -- In consistent tables, an attempt that reports success has finalized its run, when the other
  -- processes make writes of the store only.
  pub run_attempt_finalizes :
      (task_id : ℕ) (s : SessionState) (w w' : World) (o : AttemptOutcome)
      → IsConsistent w.db
      → run_attempt env run task_id s w ≡ some (ok o, w')
      → count_where (running_id run.id) w'.db.runs ≡ 0
  run_attempt_finalizes task_id s w w' o c e =
      Ends-at (λ r db. is_ok r ≡ true → Over db) _ (ok o) w'
        (run_attempt_rule env run (Reach w.db) (Reach-Safe w.db) (λ r db. is_ok r ≡ true → Over db)
          (λ e db c h. cc) (λ params m db h e i o f t. cc)
          (λ params m db h o i p f g t. made-Over params m db h i (Reach-IsConsistent p c) f)
          task_id s w (here w.db))
        e refl
