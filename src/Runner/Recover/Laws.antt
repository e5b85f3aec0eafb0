-- ===== src/Runner/Recover/Laws.antt =====
-- What recovery of an expired attempt does to the tables.
use agent_inbox_question.Base.{
  String, Time, Duration, ok, err, is_ok, false, ◌≡◌, refl, sym, ◌∙◌, arith,
}
use agent_inbox_question.Domain.Errors.{Fallible}
use agent_inbox_question.Agent.Session.{SessionState, Json}
use agent_inbox_question.Store.Database.{Db, Run, SqlDates, Faults}
use agent_inbox_question.Store.Finish.{
  FinishAttemptParams, FinishAuthorization, expired_finish_authorization, finish_with,
  recover_expired_attempt,
}
use agent_inbox_question.Store.Invariant.{IsConsistent}
use agent_inbox_question.Store.Invariant.Finish.{finish_with-IsConsistent}
use agent_inbox_question.Store.Fencing.{finish_twice}
use agent_inbox_question.Runner.Recover.{recovery_plan, recover_with, recover_expired}

-- The plan of a recovery is for the run that it recovers.
recovery_plan_run :
    (json : Json) (load : String → Fallible SessionState)
    (persist : SessionState → Fallible (Unit {0})) (run : Run) (reset : Duration) (now : Time)
    {p : FinishAttemptParams}
    → recovery_plan json load persist run reset now ≡ ok p
    → p.run_id ≡ run.id
unfolding recovery_plan
recovery_plan_run json load persist run reset now h = ground arith

module _ (dates : SqlDates) (sql_now : Time) (fails : Faults) (clock : Time) (db : Db)
    (c : IsConsistent db) where
  recover_with-IsConsistent :
      (plan : Fallible FinishAttemptParams)
      → IsConsistent (recover_with dates sql_now fails clock db plan).0.committed
  unfolding recover_expired_attempt
  recover_with-IsConsistent (err e) = c
  recover_with-IsConsistent (ok params) =
      finish_with-IsConsistent fails (expired_finish_authorization dates sql_now) clock params db c

  -- Recovery keeps the committed tables consistent, whatever the session file holds.
  pub recover_expired-IsConsistent :
      (json : Json) (load : String → Fallible SessionState)
      (persist : SessionState → Fallible (Unit {0})) (run : Run) (reset : Duration) (now : Time)
      → IsConsistent
          (recover_expired dates sql_now fails clock json load persist run reset now db).0.committed
  unfolding recover_expired
  recover_expired-IsConsistent json load persist run reset now =
      recover_with-IsConsistent (recovery_plan json load persist run reset now)

-- A recovery that succeeds has a plan, and finalizes with it.
recovered_by :
    (dates : SqlDates) (sql_now : Time) (fails : Faults) (clock : Time) (db : Db)
    (plan : Fallible FinishAttemptParams)
    → (recover_with dates sql_now fails clock db plan).1 ≡ ok tt
    → (p : FinishAttemptParams) × (plan ≡ ok p)
      × (recover_with dates sql_now fails clock db plan
          ≡ finish_with fails (expired_finish_authorization dates sql_now) clock p db)
      × ((finish_with fails (expired_finish_authorization dates sql_now) clock p db).1 ≡ ok tt)
unfolding recover_expired_attempt
recovered_by dates sql_now fails clock db (err e) h = absurd (ground arith)
recovered_by dates sql_now fails clock db (ok p) h = (p, refl, refl, h)

-- Once recovery of a run of consistent tables succeeds, each finalization of that run fails, that of
-- the worker that was its owner included.
pub recover_then_finish :
    (dates : SqlDates) (sql_now : Time) (fails : Faults) (clock : Time) (json : Json)
    (load : String → Fallible SessionState) (persist : SessionState → Fallible (Unit {0}))
    (run : Run) (reset : Duration) (now : Time) (db : Db) (fails' : Faults)
    (authorize' : FinishAuthorization) (clock' : Time) (params' : FinishAttemptParams)
    → IsConsistent db
    → (recover_expired dates sql_now fails clock json load persist run reset now db).1 ≡ ok tt
    → params'.run_id ≡ run.id
    → let db' =
        (recover_expired dates sql_now fails clock json load persist run reset now
          db).0.committed in
      is_ok (finish_with fails' authorize' clock' params' db').1 ≡ false
unfolding recover_expired
recover_then_finish dates sql_now fails clock json load persist run reset now db fails' authorize'
      clock' params' c won same =
    let (p, e, f, g) = recovered_by dates sql_now fails clock db _ won in
    rw f (
      finish_twice fails (expired_finish_authorization dates sql_now) clock p db c g fails'
        authorize' clock' params'
        (same ∙ sym (recovery_plan_run json load persist run reset now e)))
