-- ===== src/Store/Fencing.antt =====
-- internal/store/attempt_repo.go: once a run is finalized nobody writes to it, and at one instant
-- either its owner or recovery may finalize it.
use agent_inbox_question.Base.{
  ℕ, suc, ◌≡◌, refl, Bool, true, false, Time, Duration, inl, inr, ok, ◌==◌, arith, String,
  Result-cases, pair_eq, is_ok, List, ◌&&◌,
}
use agent_inbox_question.Domain.Status.{is_running}
use agent_inbox_question.Domain.Completion.{TerminalAttemptState, terminal_state}
use agent_inbox_question.Store.Table.{
  count_where, update_where-none, count_where-drop, count_where-disjoint, count_where_mono,
  count_key-le-one,
}
use agent_inbox_question.Store.Database.{Db, Run, SqlDates, Faults}
use agent_inbox_question.Store.Progress.{
  AttemptProgress, publish, renewed, owns, update_progress, renew_lease,
}
use agent_inbox_question.Store.Finish.{
  FinishAuthorization, FinishAttemptParams, finish_with, finishes, finished_run, finish_time,
  owner_finish_authorization, expired_finish_authorization, finish_attempt, recover_expired_attempt,
}
use agent_inbox_question.Store.Finish.Laws.{finish_ok}
use agent_inbox_question.Store.Invariant.{IsConsistent, run_key}

-- The running rows under an id.
abbrev pub running_id : ℕ → Run → Bool
running_id i r = r.id == i && is_running r.status

stops :
    (authorize : FinishAuthorization) (params : FinishAttemptParams) (state : TerminalAttemptState)
    (at : Time)
    → terminal_state params.completion.outcome ≡ ok state
    → (r : Run) → finishes authorize params r ≡ true
    → (running_id params.run_id r ≡ true)
      × (running_id params.run_id (finished_run state params at r) ≡ false)
unfolding finishes terminal_state
stops authorize params state at h r f = ground arith

owns-running :
    (dates : SqlDates) (now : Time) (i : ℕ) (owner : String) (r : Run)
    → owns dates now i owner r ≡ true
    → running_id i r ≡ true
unfolding owns
owns-running dates now i owner r h = ground arith

finishes-running :
    (authorize : FinishAuthorization) (params : FinishAttemptParams) (r : Run)
    → finishes authorize params r ≡ true
    → running_id params.run_id r ≡ true
unfolding finishes
finishes-running authorize params r f = ground arith

-- No row under the id of a run that was finalized is running.
pub finished_not_running :
    (fails : Faults) (authorize : FinishAuthorization) (clock : Time) (params : FinishAttemptParams)
    (db : Db)
    → IsConsistent db
    → (finish_with fails authorize clock params db).1 ≡ ok tt
    → count_where
        (running_id params.run_id)
        (finish_with fails authorize clock params db).0.committed.runs
      ≡ 0
finished_not_running fails authorize clock params db c won =
    let (state, terminal, n, _, f) =
      finish_ok fails authorize clock params db (pair_eq _ refl won) in
    rw f (
      omega (
        arith,
        n,
        count_where-drop (running_id params.run_id) (finishes authorize params)
            (finished_run state params (finish_time clock params.finished_at))
            (stops authorize params state _ terminal) db.runs,
        count_where_mono (λ r. run_key r == params.run_id) (running_id params.run_id)
            (λ r h. ground arith) db.runs,
        count_key-le-one run_key params.run_id (suc db.run_seq) db.runs c.runs_fresh,
      ))

-- Nothing fits a clause that asks for a running row under an id that has none.
none_fit :
    (p : Run → Bool) (i : ℕ) (runs : List Run)
    → ((r : Run) → p r ≡ true → running_id i r ≡ true)
    → count_where (running_id i) runs ≡ 0
    → count_where p runs ≡ 0
none_fit p i runs within h = omega (arith, count_where_mono (running_id i) p within runs)

module _ (dates : SqlDates) (now : Time) (fails : Faults) (db : Db) (i : ℕ)
    (over : count_where (running_id i) db.runs ≡ 0) where
  owns_none : (owner : String) → count_where (owns dates now i owner) db.runs ≡ 0
  owns_none owner =
      none_fit (owns dates now i owner) i db.runs (owns-running dates now i owner) over

  pub update_over :
      (progress : AttemptProgress)
      → progress.run_id ≡ i
      → ((update_progress dates now fails progress db).0 ≡ db)
        × (is_ok (update_progress dates now fails progress db).1 ≡ false)
  unfolding update_progress
  update_over progress e =
      let n : count_where (owns dates now progress.run_id progress.owner_token) db.runs ≡ 0 =
        rw e (owns_none progress.owner_token) in
      ground (
        arith,
        n,
        update_where-none (owns dates now progress.run_id progress.owner_token) (publish progress)
            db.runs n,
      )

  pub renew_over :
      (owner : String) (duration : Duration)
      → ((renew_lease dates now fails i owner duration db).0 ≡ db)
        × (is_ok (renew_lease dates now fails i owner duration db).1 ≡ false)
  unfolding renew_lease
  renew_over owner duration = ground (
    arith,
    owns_none owner,
    update_where-none (owns dates now i owner) (renewed (dates.time_after now duration)) db.runs
        (owns_none owner),
  )

-- Finalizing a run that is not running fails.
pub finish_over :
    (fails : Faults) (authorize : FinishAuthorization) (clock : Time) (params : FinishAttemptParams)
    (db : Db)
    → count_where (running_id params.run_id) db.runs ≡ 0
    → is_ok (finish_with fails authorize clock params db).1 ≡ false
finish_over fails authorize clock params db over =
    elim (Result-cases (finish_with fails authorize clock params db).1) [
      | inl (u, e) ↦
          let (_, _, n, _, _) = finish_ok fails authorize clock params db (pair_eq _ refl e) in
          absurd (
            omega (
              arith,
              n,
              none_fit (finishes authorize params) params.run_id db.runs
                  (finishes-running authorize params) over,
            ))
      | inr (x, e) ↦ rw e
    ]

module _ (fails : Faults) (authorize : FinishAuthorization) (clock : Time)
    (params : FinishAttemptParams) (db : Db) (c : IsConsistent db)
    (won : (finish_with fails authorize clock params db).1 ≡ ok tt) where
  abbrev after : Db
  after = (finish_with fails authorize clock params db).0.committed

  -- Once a run of consistent tables is finalized, under any authorization, a publication of progress
  -- for it fails and leaves the tables as they are.
  pub stale_progress :
      (dates : SqlDates) (now : Time) (fails' : Faults) (progress : AttemptProgress)
      → progress.run_id ≡ params.run_id
      → ((update_progress dates now fails' progress after).0 ≡ after)
        × (is_ok (update_progress dates now fails' progress after).1 ≡ false)
  stale_progress dates now fails' progress e =
      update_over dates now fails' after params.run_id
        (finished_not_running fails authorize clock params db c won) progress e

  -- Once a run of consistent tables is finalized, under any authorization, a renewal of its lease
  -- fails and leaves the tables as they are.
  pub stale_renewal :
      (dates : SqlDates) (now : Time) (fails' : Faults) (owner : String) (duration : Duration)
      → ((renew_lease dates now fails' params.run_id owner duration after).0 ≡ after)
        × (is_ok (renew_lease dates now fails' params.run_id owner duration after).1 ≡ false)
  stale_renewal dates now fails' owner duration =
      renew_over dates now fails' after params.run_id
        (finished_not_running fails authorize clock params db c won) owner duration

  -- Once a run of consistent tables is finalized, every further finalization of it fails.
  pub finish_twice :
      (fails' : Faults) (authorize' : FinishAuthorization) (clock' : Time)
      (params' : FinishAttemptParams)
      → params'.run_id ≡ params.run_id
      → is_ok (finish_with fails' authorize' clock' params' after).1 ≡ false
  finish_twice fails' authorize' clock' params' e =
      finish_over fails' authorize' clock' params' after
        (rw e (finished_not_running fails authorize clock params db c won))

lease_not_both :
    (dates : SqlDates) (now : Time) (params params' : FinishAttemptParams) (r : Run)
    → params'.run_id ≡ params.run_id
    → finishes (owner_finish_authorization dates now) params r ≡ true
    → ((run_key r == params.run_id) ≡ true)
      × (finishes (expired_finish_authorization dates now) params' r ≡ false)
unfolding finishes owner_finish_authorization expired_finish_authorization
lease_not_both dates now params params' r e h = ground arith

finishes-id :
    (authorize : FinishAuthorization) (params : FinishAttemptParams) (r : Run)
    → finishes authorize params r ≡ true
    → (run_key r == params.run_id) ≡ true
unfolding finishes
finishes-id authorize params r h = ground arith

-- In consistent tables, when a run's owner finalizes it at an instant of the database's clock, then
-- recovery of the same run at that instant, on the same tables, is refused.
pub finish_exclusive :
    (dates : SqlDates) (now : Time) (fails fails' : Faults) (clock clock' : Time)
    (params params' : FinishAttemptParams) (db : Db)
    → IsConsistent db
    → params'.run_id ≡ params.run_id
    → (finish_attempt dates now fails clock params db).1 ≡ ok tt
    → is_ok (recover_expired_attempt dates now fails' clock' params' db).1 ≡ false
unfolding finish_attempt recover_expired_attempt
finish_exclusive dates now fails fails' clock clock' params params' db c same won =
    let owner = owner_finish_authorization dates now in
    let expired = expired_finish_authorization dates now in
    elim (Result-cases (finish_with fails' expired clock' params' db).1) [
      | inl (u, e) ↦
          let (_, _, n, _, _) = finish_ok fails owner clock params db (pair_eq _ refl won) in
          let (_, _, m, _, _) = finish_ok fails' expired clock' params' db (pair_eq _ refl e) in
          absurd (
            omega (
              arith,
              n,
              m,
              count_where-disjoint (λ r. run_key r == params.run_id) (finishes owner params)
                  (finishes expired params')
                  (λ r h. lease_not_both dates now params params' r same h)
                  (λ r h. rw (← same) (finishes-id expired params' r h)) db.runs,
              count_key-le-one run_key params.run_id (suc db.run_seq) db.runs c.runs_fresh,
            ))
      | inr (x, e) ↦ rw e
    ]
