-- ===== src/Store/Continuations/Laws.antt =====
-- InitializeUnscheduled decides on one task at a time, and leaves all else as it was.
use mathlib.Core.List.{Memᴰ}
use agent_inbox_question.Base.{
  ℕ, List, ◌+◌, Duration, true, false, is_positive, ok, err, ◌≡◌, refl, arith, ◌∙◌, sym,
}
use agent_inbox_question.Domain.Status.{is_no_continuation}
use agent_inbox_question.Domain.Errors.{Fallible}
use agent_inbox_question.Domain.Continuation.{ContinuationDecision, parse_continuation}
use agent_inbox_question.Domain.Continuation.Laws.{IsWellFormed, parse_complete}
use agent_inbox_question.Domain.Completion.{AttemptCompletion, decide_attempt_completion}
use agent_inbox_question.Domain.Completion.Laws.{decide-IsWellFormed}
use agent_inbox_question.Store.Table.{
  count_where, update_where, count_where-keep, count_where-drop, update_where-Below, updated_row,
}
use agent_inbox_question.Store.Database.{Db, TaskRow, Faults, claims_for}
use agent_inbox_question.Store.Invariant.{IsConsistent, task_key}
use agent_inbox_question.Store.Continuations.{
  Unscheduled, InitializedContinuation, is_undecided, undecided_task, decided, unscheduled_input,
  find_unscheduled, initialize_with, initialize_decided, initialize_found, initialize_unscheduled,
}

module _ (fails : Faults) (t : ℕ) (d : ContinuationDecision) (db : Db) where
  initialize_with-IsConsistent : IsConsistent db → IsConsistent (initialize_with fails t d db).0
  unfolding initialize_with
  initialize_with-IsConsistent c = ground (arith, c, decided_rows)
    where
      decided_rows :
          IsConsistent (record db { tasks = update_where (undecided_task t) (decided d) db.tasks })
      decided_rows = record {
        tasks_fresh =
            update_where-Below task_key (undecided_task t) (decided d) (λ k. refl) _ db.tasks
              c.tasks_fresh;
        runs_fresh = c.runs_fresh;
        owned = λ u.
            c.owned u
            ∙ sym (
                count_where-keep (claims_for u) (undecided_task t) (decided d) (λ k _. refl)
                  db.tasks);
      }

  initialize_with_decreases :
      (i : InitializedContinuation)
      → is_no_continuation d.kind ≡ false
      → (initialize_with fails t d db).1 ≡ ok i
      → (i.continuation ≡ d)
        × (i.task_id ≡ t)
        × (count_where (undecided_task t) db.tasks ≡ 1)
        × ((initialize_with fails t d db).0.tasks
            ≡ update_where (undecided_task t) (decided d) db.tasks)
        × (count_where is_undecided (initialize_with fails t d db).0.tasks + 1
            ≡ count_where is_undecided db.tasks)
  unfolding initialize_with
  initialize_with_decreases i k h = ground (
    arith,
    k,
    count_where-drop is_undecided (undecided_task t) (decided d)
        (λ r f. (ground arith, ground arith)) db.tasks,
  )

-- The row of a failed task on which nothing was decided, and what is stored of it now: a row of the
-- same task, failed still, from whose columns the decision is parsed.
pub record IsStored (d : ContinuationDecision) (t : ℕ) (before after : List TaskRow) : Type 0 where
  pub old : TaskRow
  pub from : Memᴰ old before
  pub fits : undecided_task t old ≡ true
  pub row : TaskRow
  pub stored : Memᴰ row after
  pub same_task : row.id ≡ t
  pub same_status : row.status ≡ old.status
  pub parsed :
      parse_continuation row.auto_retry_state row.next_eligible_at row.auto_retry_reason ≡ ok d

decided-IsStored :
    (d : ContinuationDecision) (t : ℕ) (tasks : List TaskRow)
    → IsWellFormed d
    → count_where (undecided_task t) tasks ≡ 1
    → IsStored d t tasks (update_where (undecided_task t) (decided d) tasks)
decided-IsStored d t tasks w n =
    let (old, from, fits, stored) =
      updated_row (undecided_task t) (decided d) tasks (omega (arith, n)) in
    record {
      old = old;
      from = from;
      fits = fits;
      row = decided d old;
      stored = stored;
      same_task = ground (arith, fits);
      same_status = refl;
      parsed = parse_complete d w;
    }

-- What exhaustion in a fresh window is decided to be, under a positive reset interval.
unscheduled_kind :
    (reset : Duration) (u : Unscheduled) (c : AttemptCompletion)
    → is_positive reset ≡ true
    → decide_attempt_completion (unscheduled_input reset u) ≡ ok c
    → is_no_continuation c.continuation.kind ≡ false
unfolding decide_attempt_completion
unscheduled_kind reset u c p h = ground arith

module _ (fails : Faults) (reset : Duration) (db : Db) where
  initialize_found-IsConsistent :
      (u : Fallible Unscheduled)
      → IsConsistent db
      → IsConsistent (initialize_found fails reset db u).0
  initialize_found-IsConsistent (err e) c = c
  initialize_found-IsConsistent (ok u) c =
      by_decision (decide_attempt_completion (unscheduled_input reset u))
    where
      by_decision :
          (x : Fallible AttemptCompletion)
          → IsConsistent (initialize_decided fails u.task_id db x).0
      by_decision (err e) = c
      by_decision (ok x) = initialize_with-IsConsistent fails u.task_id x.continuation db c

  -- Initialization of a continuation keeps the tables consistent, with success or error.
  pub initialize_unscheduled-IsConsistent :
      IsConsistent db → IsConsistent (initialize_unscheduled fails reset db).0
  unfolding initialize_unscheduled
  initialize_unscheduled-IsConsistent c =
      initialize_found-IsConsistent (find_unscheduled fails db) c

  initialize_found_decreases :
      (u : Fallible Unscheduled) (i : InitializedContinuation)
      → is_positive reset ≡ true
      → (initialize_found fails reset db u).1 ≡ ok i
      → IsWellFormed i.continuation
        × IsStored i.continuation i.task_id db.tasks (initialize_found fails reset db u).0.tasks
        × (count_where is_undecided (initialize_found fails reset db u).0.tasks + 1
            ≡ count_where is_undecided db.tasks)
  initialize_found_decreases (err e) i p h = cc
  initialize_found_decreases (ok u) i p h =
      by_decision (decide_attempt_completion (unscheduled_input reset u)) refl h
    where
      by_decision :
          (x : Fallible AttemptCompletion)
          → decide_attempt_completion (unscheduled_input reset u) ≡ x
          → (initialize_decided fails u.task_id db x).1 ≡ ok i
          → IsWellFormed i.continuation
            × IsStored i.continuation i.task_id db.tasks
                (initialize_decided fails u.task_id db x).0.tasks
            × (count_where is_undecided (initialize_decided fails u.task_id db x).0.tasks + 1
                ≡ count_where is_undecided db.tasks)
      by_decision (err e) q h = cc
      by_decision (ok x) q h =
          let (c, t, one, rows, n) =
            initialize_with_decreases fails u.task_id x.continuation db i
              (unscheduled_kind reset u x p q) h in
          let w = decide-IsWellFormed (unscheduled_input reset u) q in
          (rw c w, rw (c, t, rows) (decided-IsStored x.continuation u.task_id db.tasks w one), n)

  -- Under a positive reset interval a continuation that is initialized is well formed, it is what is
  -- parsed from the columns now stored in a row of its task, which was failed with nothing decided and
  -- is failed still, and one task fewer is failed with nothing decided.
  pub initialize_unscheduled_decreases :
      (i : InitializedContinuation)
      → is_positive reset ≡ true
      → (initialize_unscheduled fails reset db).1 ≡ ok i
      → IsWellFormed i.continuation
        × IsStored i.continuation i.task_id db.tasks (initialize_unscheduled fails reset db).0.tasks
        × (count_where is_undecided (initialize_unscheduled fails reset db).0.tasks + 1
            ≡ count_where is_undecided db.tasks)
  unfolding initialize_unscheduled
  initialize_unscheduled_decreases i p h =
      initialize_found_decreases (find_unscheduled fails db) i p h
