-- ===== src/Store/Invariant/Finish.antt =====
-- Finalization keeps the tables consistent.
use agent_inbox_question.Base.{
  ℕ, ◌≡◌, refl, true, false, Bool-cases, Time, inl, inr, ok, ◌==◌, arith,
}
use agent_inbox_question.Domain.Status.{is_running}
use agent_inbox_question.Domain.Completion.{TerminalAttemptState, terminal_state}
use agent_inbox_question.Store.Table.{
  count_where, count_where-keep, count_where-drop, update_where-Below,
}
use agent_inbox_question.Store.Database.{
  Db, Run, TaskRow, runs_for, claims_for, is_in_progress, Faults,
}
use agent_inbox_question.Store.Finish.{
  FinishAuthorization, FinishAttemptParams, finishes, finished_run, finished_task, in_progress_task,
}
use agent_inbox_question.Store.Finish.Laws.{finished_db}
use agent_inbox_question.Store.Finish.{finish_with}
use agent_inbox_question.Store.Finish.Laws.{finish_ok, finish_error}
use agent_inbox_question.Base.{Result-cases, pair_eq}
use agent_inbox_question.Store.Invariant.{IsConsistent, task_key, run_key}

module _ (authorize : FinishAuthorization) (params : FinishAttemptParams)
    (state : TerminalAttemptState) (at : Time)
    (terminal : terminal_state params.completion.outcome ≡ ok state) where
  not_running : is_running state.run_status ≡ false
  unfolding terminal_state
  not_running = ground arith

  not_in_progress : is_in_progress state.task_status ≡ false
  unfolding terminal_state
  not_in_progress = ground arith

  run_leaves :
      (t : ℕ)
      → (params.task_id == t) ≡ true
      → (r : Run) → finishes authorize params r ≡ true
      → (runs_for t r ≡ true) × (runs_for t (finished_run state params at r) ≡ false)
  unfolding finishes
  run_leaves t e r f = ground (arith, not_running)

  task_leaves :
      (t : ℕ)
      → (params.task_id == t) ≡ true
      → (k : TaskRow) → in_progress_task params.task_id k ≡ true
      → (claims_for t k ≡ true) × (claims_for t (finished_task state params at k) ≡ false)
  task_leaves t e k f = ground (arith, not_in_progress)

  run_stays :
      (t : ℕ)
      → (params.task_id == t) ≡ false
      → (r : Run) → finishes authorize params r ≡ true
      → runs_for t (finished_run state params at r) ≡ runs_for t r
  unfolding finishes
  run_stays t e r f = ground arith

  task_stays :
      (t : ℕ)
      → (params.task_id == t) ≡ false
      → (k : TaskRow) → in_progress_task params.task_id k ≡ true
      → claims_for t (finished_task state params at k) ≡ claims_for t k
  task_stays t e k f = ground arith

  finished-Consistent :
      (db : Db)
      → count_where (finishes authorize params) db.runs ≡ 1
      → count_where (in_progress_task params.task_id) db.tasks ≡ 1
      → IsConsistent db
      → IsConsistent (finished_db state authorize params at db)
  finished-Consistent db n m c = record {
    tasks_fresh =
        update_where-Below task_key (in_progress_task params.task_id)
          (finished_task state params at) (λ x. refl) _ db.tasks c.tasks_fresh;
    runs_fresh =
        update_where-Below run_key (finishes authorize params) (finished_run state params at)
          (λ x. refl) _ db.runs c.runs_fresh;
    owned = λ t. elim (Bool-cases (params.task_id == t)) [
      | inl e ↦ omega (
        arith,
        c.owned t,
        n,
        m,
        count_where-drop (runs_for t) (finishes authorize params) (finished_run state params at)
            (run_leaves t e) db.runs,
        count_where-drop (claims_for t) (in_progress_task params.task_id)
            (finished_task state params at) (task_leaves t e) db.tasks,
      )
      | inr e ↦ omega (
        arith,
        c.owned t,
        count_where-keep (runs_for t) (finishes authorize params) (finished_run state params at)
            (run_stays t e) db.runs,
        count_where-keep (claims_for t) (in_progress_task params.task_id)
            (finished_task state params at) (task_stays t e) db.tasks,
      )
    ];
  }

-- Finalization keeps the committed tables consistent, with success or error, under any
-- authorization.
pub finish_with-IsConsistent :
    (fails : Faults) (authorize : FinishAuthorization) (clock : Time) (params : FinishAttemptParams)
    (db : Db)
    → IsConsistent db
    → IsConsistent (finish_with fails authorize clock params db).0.committed
finish_with-IsConsistent fails authorize clock params db c =
    elim (Result-cases (finish_with fails authorize clock params db).1) [
      | inl (tt, e) ↦
          let (state, s, n, m, f) = finish_ok fails authorize clock params db (pair_eq _ refl e) in
          rw f (finished-Consistent authorize params state _ s db n m c)
      | inr (x, e) ↦ rw (finish_error fails authorize clock params db (pair_eq _ refl e)) c
    ]
