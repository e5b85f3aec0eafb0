-- ===== src/Store/Invariant/Progress.antt =====
-- The fenced writes of a running attempt keep the tables consistent.
use agent_inbox_question.Base.{ℕ, ◌≡◌, refl, Bool, Time, Duration, arith, String, ◌∙◌}
use agent_inbox_question.Store.Table.{update_where, count_where-keep, update_where-Below}
use agent_inbox_question.Store.Database.{Db, Run, runs_for, SqlDates, Faults}
use agent_inbox_question.Store.Progress.{
  AttemptProgress, publish, renewed, owns, update_progress, renew_lease,
}
use agent_inbox_question.Store.Invariant.{IsConsistent, run_key}

-- A write to the runs that leaves id, task and status alone.
runs-IsConsistent :
    (p : Run → Bool) (f : Run → Run) (db : Db)
    → ((r : Run) → (f r).id ≡ r.id)
    → ((t : ℕ) (r : Run) → runs_for t (f r) ≡ runs_for t r)
    → IsConsistent db
    → IsConsistent (record db { runs = update_where p f db.runs })
runs-IsConsistent p f db same kept c = record {
  tasks_fresh = c.tasks_fresh;
  runs_fresh = update_where-Below run_key p f same _ db.runs c.runs_fresh;
  owned = λ t. count_where-keep (runs_for t) p f (λ r _. kept t r) db.runs ∙ c.owned t;
}

module _ (dates : SqlDates) (now : Time) (fails : Faults) (db : Db) (c : IsConsistent db) where
  -- A publication of progress keeps the tables consistent, with success or error.
  pub update_progress-IsConsistent :
      (progress : AttemptProgress) → IsConsistent (update_progress dates now fails progress db).0
  unfolding update_progress
  update_progress-IsConsistent progress = ground (
    arith,
    c,
    runs-IsConsistent (owns dates now progress.run_id progress.owner_token) (publish progress) db
        (λ r. refl) (λ t r. refl) c,
  )

  -- A renewal of a lease keeps the tables consistent, with success or error.
  pub renew_lease-IsConsistent :
      (id : ℕ) (owner : String) (duration : Duration)
      → IsConsistent (renew_lease dates now fails id owner duration db).0
  unfolding renew_lease
  renew_lease-IsConsistent id owner duration = ground (
    arith,
    c,
    runs-IsConsistent (owns dates now id owner) (renewed (dates.time_after now duration)) db
        (λ r. refl) (λ t r. refl) c,
  )
