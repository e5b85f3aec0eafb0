-- ===== src/Store/System/Known.antt =====
-- The statuses that the tasks of a database have.
use agent_inbox_question.Base.{
  ℕ, Time, Option, Bool, true, false, ok, err, ◌≡◌, refl, arith, subst, Result-cases, inl, inr,
  pair_eq, String, Duration,
}
use agent_inbox_question.Domain.Status.{TaskStatus}
use agent_inbox_question.Domain.Completion.{
  TerminalAttemptState, terminal_state, AttemptCompletion, decide_attempt_completion,
}
use agent_inbox_question.Domain.Errors.{Fallible}
use agent_inbox_question.Domain.Continuation.{ContinuationDecision}
use agent_inbox_question.Store.Table.{count_where, update_where, count_where_shrink}
use agent_inbox_question.Store.Database.{Db, TaskRow, SqlDates, Faults}
use agent_inbox_question.Store.Progress.{AttemptProgress, update_progress, renew_lease}
use agent_inbox_question.Store.Finish.{
  FinishAuthorization, FinishAttemptParams, finished_task, in_progress_task, finish_time,
  finish_with,
}
use agent_inbox_question.Store.Finish.Laws.{finish_ok, finish_error}
use agent_inbox_question.Store.Start.{
  StartAuthorization, StartAttemptParams, claims, claimed_task, start_time, start_authorized,
}
use agent_inbox_question.Store.Start.Laws.{start_ok, start_error}
use agent_inbox_question.Store.Tasks.{create_task}
use agent_inbox_question.Store.Comments.{create_comment}
use agent_inbox_question.Store.Continuations.{
  Unscheduled, undecided_task, decided, initialize_unscheduled, initialize_found,
  initialize_decided, initialize_with, find_unscheduled, unscheduled_input,
}
use agent_inbox_question.Store.System.{
  Step, creating, commenting, starting, publishing, renewing, finishing, initializing, Reach, here,
  later, empty_db,
}

-- A status that is none of the four that are named.
abbrev pub is_other : TaskStatus → Bool
is_other (TaskStatus.other s) = true
is_other _ = false

-- No task has one.
pub record IsKnown (db : Db) : Type 0 where
  pub none_other : count_where (λ k. is_other k.status) db.tasks ≡ 0

module _ (db : Db) (v : IsKnown db) where
  -- Other columns and other tables.
  same_tasks-IsKnown : (db' : Db) → db'.tasks ≡ db.tasks → IsKnown db'
  same_tasks-IsKnown db' e = record { none_other = rw e v.none_other }

  -- An UPDATE of tasks that gives none of them an unnamed status.
  update-IsKnown :
      (p : TaskRow → Bool) (f : TaskRow → TaskRow)
      → ((k : TaskRow) → p k ≡ true → is_other (f k).status ≡ true → is_other k.status ≡ true)
      → IsKnown (record db { tasks = update_where p f db.tasks })
  update-IsKnown p f kept = record {
    none_other =
        omega (arith, v.none_other, count_where_shrink (λ k. is_other k.status) p f kept db.tasks);
  }

  update_progress-IsKnown :
      (dates : SqlDates) (now : Time) (fails : Faults) (progress : AttemptProgress)
      → IsKnown (update_progress dates now fails progress db).0
  unfolding update_progress
  update_progress-IsKnown dates now fails progress = same_tasks-IsKnown _ (ground arith)

  renew_lease-IsKnown :
      (dates : SqlDates) (now : Time) (fails : Faults) (id : ℕ) (owner : String)
      (duration : Duration)
      → IsKnown (renew_lease dates now fails id owner duration db).0
  unfolding renew_lease
  renew_lease-IsKnown dates now fails id owner duration = same_tasks-IsKnown _ (ground arith)

  finished_task_known :
      (state : TerminalAttemptState) (params : FinishAttemptParams) (at : Time)
      → terminal_state params.completion.outcome ≡ ok state
      → (k : TaskRow) → is_other (finished_task state params at k).status ≡ true
      → is_other k.status ≡ true
  unfolding terminal_state
  finished_task_known state params at s k h = ground arith

  finish_with-IsKnown :
      (fails : Faults) (authorize : FinishAuthorization) (clock : Time)
      (params : FinishAttemptParams)
      → IsKnown (finish_with fails authorize clock params db).0.committed
  finish_with-IsKnown fails authorize clock params =
      elim (Result-cases (finish_with fails authorize clock params db).1) [
        | inl (tt, e) ↦
            let (state, s, n, m, f) =
              finish_ok fails authorize clock params db (pair_eq _ refl e) in
            let u =
              update-IsKnown (in_progress_task params.task_id)
                (finished_task state params (finish_time clock params.finished_at))
                (λ k h q.
                  finished_task_known state params (finish_time clock params.finished_at) s k q) in
            rw f (record { none_other = u.none_other })
        | inr (x, e) ↦ rw (finish_error fails authorize clock params db (pair_eq _ refl e)) v
      ]

  start_authorized-IsKnown :
      (dates : SqlDates) (fails : Faults) (clock : Time) (token : Option String)
      (authorization : StartAuthorization) (params : StartAttemptParams)
      → IsKnown (start_authorized dates fails clock token authorization params db).0.committed
  start_authorized-IsKnown dates fails clock token authorization params =
      elim (Result-cases (start_authorized dates fails clock token authorization params db).1) [
        | inl (run, e) ↦
            let (_, _, n, (s, _, f)) =
              start_ok dates fails authorization params db clock token (pair_eq _ refl e) in
            let at = start_time clock params.started_at in
            let u =
              update-IsKnown (claims dates at authorization params db.runs) (claimed_task at)
                (λ k h q. absurd (cc q)) in
            rw f (record { none_other = u.none_other })
        | inr (x, e) ↦
            rw (start_error dates fails authorization params db clock token (pair_eq _ refl e)) v
      ]

  initialize_with-IsKnown :
      (fails : Faults) (t : ℕ) (d : ContinuationDecision) → IsKnown (initialize_with fails t d db).0
  unfolding initialize_with
  initialize_with-IsKnown fails t d =
      ground (arith, v, update-IsKnown (undecided_task t) (decided d) (λ k h q. q))

  initialize-IsKnown :
      (fails : Faults) (reset : Duration) → IsKnown (initialize_unscheduled fails reset db).0
  unfolding initialize_unscheduled
  initialize-IsKnown fails reset = found (find_unscheduled fails db)
    where
      settled :
          (t : ℕ) (x : Fallible AttemptCompletion) → IsKnown (initialize_decided fails t db x).0
      settled t (err e) = v
      settled t (ok c) = initialize_with-IsKnown fails t c.continuation

      found : (u : Fallible Unscheduled) → IsKnown (initialize_found fails reset db u).0
      found (err e) = v
      found (ok u) = settled u.task_id (decide_attempt_completion (unscheduled_input reset u))

  create_task-IsKnown :
      (fails : Faults) (now : Time) (title description : String)
      → IsKnown (create_task fails now title description db).0
  unfolding create_task count_where
  create_task-IsKnown fails now title description = record {
    none_other = ground (arith, v.none_other);
  }

  create_comment-IsKnown :
      (fails : Faults) (now : Time) (t : ℕ) (author body : String)
      → IsKnown (create_comment fails now t author body db).0
  unfolding create_comment
  create_comment-IsKnown fails now t author body = same_tasks-IsKnown _ (ground arith)

Step-IsKnown : {db db' : Db} → Step db db' → IsKnown db → IsKnown db'
Step-IsKnown (creating fails now title description db db' e) v =
    subst IsKnown e (create_task-IsKnown db v fails now title description)
Step-IsKnown (commenting fails now t author body db db' e) v =
    subst IsKnown e (create_comment-IsKnown db v fails now t author body)
Step-IsKnown (starting dates fails clock token authorization params db db' e) v =
    subst IsKnown e (start_authorized-IsKnown db v dates fails clock token authorization params)
Step-IsKnown (publishing dates now fails progress db db' e) v =
    subst IsKnown e (update_progress-IsKnown db v dates now fails progress)
Step-IsKnown (renewing dates now fails id owner duration db db' e) v =
    subst IsKnown e (renew_lease-IsKnown db v dates now fails id owner duration)
Step-IsKnown (finishing fails authorize clock params db db' e) v =
    subst IsKnown e (finish_with-IsKnown db v fails authorize clock params)
Step-IsKnown (initializing fails reset db db' e) v =
    subst IsKnown e (initialize-IsKnown db v fails reset)

pub Reach-IsKnown : {db db' : Db} → Reach db db' → IsKnown db → IsKnown db'
Reach-IsKnown (here db) v = v
Reach-IsKnown (later r s) v = Step-IsKnown s (Reach-IsKnown r v)

pub empty_db-IsKnown : IsKnown empty_db
unfolding count_where
empty_db-IsKnown = record { none_other = refl }
