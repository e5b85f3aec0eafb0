-- ===== src/Store/System/Final.antt =====
-- A run that is over is over for good: no write of any process sets it running again.
use agent_inbox_question.Base.{
  ℕ, ◌≤◌, Time, Option, Bool, true, ok, err, ◌≡◌, refl, arith, subst, Result-cases, inl, inr,
  pair_eq, String, Duration, List,
}
use agent_inbox_question.Domain.Completion.{TerminalAttemptState, terminal_state}
use agent_inbox_question.Domain.Errors.{Fallible}
use agent_inbox_question.Store.Table.{count_where, update_where, count_where_shrink}
use agent_inbox_question.Domain.Continuation.{ContinuationDecision}
use agent_inbox_question.Store.Database.{Db, TaskRow, Run, SqlDates, Faults}
use agent_inbox_question.Store.Progress.{
  AttemptProgress, publish, renewed, owns, update_progress, renew_lease,
}
use agent_inbox_question.Store.Finish.{
  FinishAuthorization, FinishAttemptParams, finishes, finished_run, finish_time, finish_with,
}
use agent_inbox_question.Store.Finish.Laws.{finish_ok, finish_error}
use agent_inbox_question.Store.Start.{StartAuthorization, StartAttemptParams, start_authorized}
use agent_inbox_question.Store.Start.Laws.{start_ok, start_error}
use agent_inbox_question.Store.Tasks.{create_task}
use agent_inbox_question.Store.Comments.{create_comment}
use agent_inbox_question.Store.Continuations.{
  Unscheduled, undecided_task, decided, initialize_unscheduled, initialize_found,
  initialize_decided, initialize_with, find_unscheduled, unscheduled_input,
}
use agent_inbox_question.Domain.Completion.{AttemptCompletion, decide_attempt_completion}
use agent_inbox_question.Store.Fencing.{running_id}
use agent_inbox_question.Store.System.{
  Step, creating, commenting, starting, publishing, renewing, finishing, initializing, Reach, here,
  later,
}

-- The id was given out, and no row under it is running.
pub record IsFinal (i : ℕ) (db : Db) : Type 0 where
  pub issued : i ≤ db.run_seq
  pub over : count_where (running_id i) db.runs ≡ 0

module _ (i : ℕ) (db : Db) (v : IsFinal i db) where
  -- An UPDATE of runs that sets none of them running.
  update-IsFinal :
      (p : Run → Bool) (f : Run → Run)
      → ((r : Run) → p r ≡ true → running_id i (f r) ≡ true → running_id i r ≡ true)
      → IsFinal i (record db { runs = update_where p f db.runs })
  update-IsFinal p f kept = record {
    issued = v.issued;
    over = omega (arith, v.over, count_where_shrink (running_id i) p f kept db.runs);
  }

  update_progress-IsFinal :
      (dates : SqlDates) (now : Time) (fails : Faults) (progress : AttemptProgress)
      → IsFinal i (update_progress dates now fails progress db).0
  unfolding update_progress
  update_progress-IsFinal dates now fails progress = ground (
    arith,
    v,
    update-IsFinal (owns dates now progress.run_id progress.owner_token) (publish progress)
        (λ r h q. q),
  )

  renew_lease-IsFinal :
      (dates : SqlDates) (now : Time) (fails : Faults) (id : ℕ) (owner : String)
      (duration : Duration)
      → IsFinal i (renew_lease dates now fails id owner duration db).0
  unfolding renew_lease
  renew_lease-IsFinal dates now fails id owner duration = ground (
    arith,
    v,
    update-IsFinal (owns dates now id owner) (renewed (dates.time_after now duration)) (λ r h q. q),
  )

  finished_run_over :
      (state : TerminalAttemptState) (params : FinishAttemptParams) (at : Time)
      → terminal_state params.completion.outcome ≡ ok state
      → (r : Run) → running_id i (finished_run state params at r) ≡ true
      → running_id i r ≡ true
  unfolding terminal_state
  finished_run_over state params at s r h = ground arith

  finish_with-IsFinal :
      (fails : Faults) (authorize : FinishAuthorization) (clock : Time)
      (params : FinishAttemptParams)
      → IsFinal i (finish_with fails authorize clock params db).0.committed
  finish_with-IsFinal fails authorize clock params =
      elim (Result-cases (finish_with fails authorize clock params db).1) [
        | inl (tt, e) ↦
            let (state, s, n, m, f) =
              finish_ok fails authorize clock params db (pair_eq _ refl e) in
            let u =
              update-IsFinal (finishes authorize params)
                (finished_run state params (finish_time clock params.finished_at))
                (λ r h q.
                  finished_run_over state params (finish_time clock params.finished_at) s r q) in
            rw f (record { issued = v.issued; over = u.over })
        | inr (x, e) ↦ rw (finish_error fails authorize clock params db (pair_eq _ refl e)) v
      ]

  start_authorized-IsFinal :
      (dates : SqlDates) (fails : Faults) (clock : Time) (token : Option String)
      (authorization : StartAuthorization) (params : StartAttemptParams)
      → IsFinal i (start_authorized dates fails clock token authorization params db).0.committed
  unfolding count_where
  start_authorized-IsFinal dates fails clock token authorization params =
      elim (Result-cases (start_authorized dates fails clock token authorization params db).1) [
        | inl (run, e) ↦
            let (_, _, n, (s, _, f)) =
              start_ok dates fails authorization params db clock token (pair_eq _ refl e) in
            rw f
              (record { issued = omega (arith, v.issued); over = ground (arith, v.issued, v.over) })
        | inr (x, e) ↦
            rw (start_error dates fails authorization params db clock token (pair_eq _ refl e)) v
      ]

  tasks-IsFinal : (tasks : List TaskRow) → IsFinal i (record db { tasks = tasks })
  tasks-IsFinal tasks = record { issued = v.issued; over = v.over }

  initialize_with-IsFinal :
      (fails : Faults) (t : ℕ) (d : ContinuationDecision)
      → IsFinal i (initialize_with fails t d db).0
  unfolding initialize_with
  initialize_with-IsFinal fails t d =
      ground (arith, v, tasks-IsFinal (update_where (undecided_task t) (decided d) db.tasks))

  initialize-IsFinal :
      (fails : Faults) (reset : Duration) → IsFinal i (initialize_unscheduled fails reset db).0
  unfolding initialize_unscheduled
  initialize-IsFinal fails reset = found (find_unscheduled fails db)
    where
      settled :
          (t : ℕ) (x : Fallible AttemptCompletion) → IsFinal i (initialize_decided fails t db x).0
      settled t (err e) = v
      settled t (ok c) = initialize_with-IsFinal fails t c.continuation

      found : (u : Fallible Unscheduled) → IsFinal i (initialize_found fails reset db u).0
      found (err e) = v
      found (ok u) = settled u.task_id (decide_attempt_completion (unscheduled_input reset u))

  create_task-IsFinal :
      (fails : Faults) (now : Time) (title description : String)
      → IsFinal i (create_task fails now title description db).0
  unfolding create_task
  create_task-IsFinal fails now title description = record {
    issued = ground (arith, v.issued);
    over = ground (arith, v.over);
  }

  create_comment-IsFinal :
      (fails : Faults) (now : Time) (t : ℕ) (author body : String)
      → IsFinal i (create_comment fails now t author body db).0
  unfolding create_comment
  create_comment-IsFinal fails now t author body = record {
    issued = ground (arith, v.issued);
    over = ground (arith, v.over);
  }

Step-IsFinal : {db db' : Db} (i : ℕ) → Step db db' → IsFinal i db → IsFinal i db'
Step-IsFinal i (creating fails now title description db db' e) v =
    subst (IsFinal i) e (create_task-IsFinal i db v fails now title description)
Step-IsFinal i (commenting fails now t author body db db' e) v =
    subst (IsFinal i) e (create_comment-IsFinal i db v fails now t author body)
Step-IsFinal i (starting dates fails clock token authorization params db db' e) v =
    subst (IsFinal i) e
      (start_authorized-IsFinal i db v dates fails clock token authorization params)
Step-IsFinal i (publishing dates now fails progress db db' e) v =
    subst (IsFinal i) e (update_progress-IsFinal i db v dates now fails progress)
Step-IsFinal i (renewing dates now fails id owner duration db db' e) v =
    subst (IsFinal i) e (renew_lease-IsFinal i db v dates now fails id owner duration)
Step-IsFinal i (finishing fails authorize clock params db db' e) v =
    subst (IsFinal i) e (finish_with-IsFinal i db v fails authorize clock params)
Step-IsFinal i (initializing fails reset db db' e) v =
    subst (IsFinal i) e (initialize-IsFinal i db v fails reset)

-- Once the run of an id that was given out is not running, it is not running after any number of
-- writes of Step by any processes, starts of later attempts included.
pub Reach-IsFinal : (i : ℕ) {db db' : Db} → Reach db db' → IsFinal i db → IsFinal i db'
Reach-IsFinal i (here db) v = v
Reach-IsFinal i (later r s) v = Step-IsFinal i s (Reach-IsFinal i r v)
