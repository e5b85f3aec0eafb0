-- ===== src/Store/Invariant/Conflict.antt =====
-- In consistent tables the task of a running run is in progress, so that finalization, once it has
-- found its run, never misses the task.
use agent_inbox_question.Base.{
  suc, Time, true, false, ok, err, ◌≡◌, refl, arith, ◌==◌, Bool-cases, inl, inr,
}
use agent_inbox_question.Domain.Errors.{Error, Fallible, is_conflict}
use agent_inbox_question.Domain.Completion.{TerminalAttemptState, terminal_state}
use agent_inbox_question.Store.Table.{count_where, count_where_mono, count_key-le-one}
use agent_inbox_question.Store.Database.{Db, Run, Faults, Handle, runs_for}
use agent_inbox_question.Store.Finish.{
  FinishAuthorization, FinishAttemptParams, finishes, in_progress_task, comment_incomplete,
  finish_time, finish_with, finish_checked, finish_tx, finish_task, finish_comment, commit_finish,
}
use agent_inbox_question.Store.Invariant.{IsConsistent, task_key}

module _ (fails : Faults) (authorize : FinishAuthorization) (params : FinishAttemptParams) (db : Db)
    (c : IsConsistent db) where
  finishes-runs_for :
      (r : Run) → finishes authorize params r ≡ true → runs_for params.task_id r ≡ true
  unfolding finishes
  finishes-runs_for r h = ground arith

  one_task :
      count_where (finishes authorize params) db.runs ≡ 1
      → count_where (in_progress_task params.task_id) db.tasks ≡ 1
  one_task n = omega (
    arith,
    n,
    c.owned params.task_id,
    count_where_mono (runs_for params.task_id) (finishes authorize params) finishes-runs_for
        db.runs,
    count_where_mono (λ k. task_key k == params.task_id) (in_progress_task params.task_id)
        (λ k h. ground arith) db.tasks,
    count_key-le-one task_key params.task_id (suc db.task_seq) db.tasks c.tasks_fresh,
  )

  tx_conflict :
      (state : TerminalAttemptState) (at : Time) {h : Handle} {e : Error}
      → finish_tx fails authorize state params at db ≡ (h, err e)
      → is_conflict e ≡ false
  unfolding finish_tx finish_task finish_comment commit_finish
  tx_conflict state at r = ground (arith, one_task)

  state_conflict :
      {e : Error} → terminal_state params.completion.outcome ≡ err e → is_conflict e ≡ false
  unfolding terminal_state
  state_conflict h = ground arith

  checked_conflict :
      (clock : Time) (x : Fallible TerminalAttemptState) {h : Handle} {e : Error}
      → terminal_state params.completion.outcome ≡ x
      → finish_checked fails authorize clock params db x ≡ (h, err e)
      → is_conflict e ≡ false
  unfolding finish_checked
  checked_conflict clock (err x) {h} {e} s r = ground (arith, state_conflict s)
  checked_conflict clock (ok state) {h} {e} s r = elim (Bool-cases (comment_incomplete params)) [
    | inl i ↦ ground (arith, i)
    | inr i ↦
        tx_conflict state (finish_time clock params.finished_at) {h = h} {e = e} (ground (arith, i))
  ]

  -- In consistent tables no finalization fails with a conflict, under any authorization: its task is
  -- in progress whenever its run is found.
  pub finish_conflict :
      (clock : Time) {h : Handle} {e : Error}
      → finish_with fails authorize clock params db ≡ (h, err e)
      → is_conflict e ≡ false
  unfolding finish_with
  finish_conflict clock r = checked_conflict clock (terminal_state params.completion.outcome) refl r
