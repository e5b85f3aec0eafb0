-- ===== src/Store/Finish/Laws.antt =====
-- What finalization does to the tables: all three writes, or none.
use agent_inbox_question.Base.{
  suc, ◌∙◌, ap, Bool-cases, Time, ◌≡◌, refl, false, ok, err, ◌⊎◌, inl, inr, arith, str_eq,
  if◌then◌else◌,
}
use agent_inbox_question.Domain.Errors.{Error, Fallible}
use agent_inbox_question.Domain.Completion.{TerminalAttemptState, terminal_state}
use agent_inbox_question.Store.Table.{count_where, update_where}
use agent_inbox_question.Store.Database.{Db, Handle, at_rest, Faults, no_faults}
use agent_inbox_question.Store.Finish.{
  FinishAuthorization, FinishAttemptParams, finish_with, finishes, finished_run, finished_task,
  in_progress_task, with_comment, commit_finish, finish_comment, finish_task, finish_tx,
  finish_checked, finish_time, comment_incomplete,
}

-- The tables after the three writes.
abbrev pub finished_db :
    TerminalAttemptState → FinishAuthorization → FinishAttemptParams → Time → Db → Db
finished_db state authorize params at db = record db {
  runs = update_where (finishes authorize params) (finished_run state params at) db.runs;
  tasks = update_where (in_progress_task params.task_id) (finished_task state params at) db.tasks;
  comments =
      if str_eq params.comment_author "" then db.comments else (with_comment params at db).comments;
  comment_seq = if str_eq params.comment_author "" then db.comment_seq else suc db.comment_seq;
}

module _ (fails : Faults) (params : FinishAttemptParams) (at : Time) (db w : Db) {h : Handle} where
  commit_ok : commit_finish fails db w ≡ (h, ok tt) → h ≡ at_rest w
  unfolding commit_finish
  commit_ok r = ground arith

  comment_ok :
      finish_comment fails params at db w ≡ (h, ok tt)
      → h ≡ at_rest (if str_eq params.comment_author "" then w else with_comment params at w)
  unfolding finish_comment commit_finish
  comment_ok r = ground arith

  comment_error : {e : Error} → finish_comment fails params at db w ≡ (h, err e) → h ≡ at_rest db
  unfolding finish_comment commit_finish
  comment_error r = ground arith

module _ (fails : Faults) (state : TerminalAttemptState) (params : FinishAttemptParams) (at : Time)
    (db w : Db) where
  abbrev task_db : Db
  task_db = record w {
    tasks = update_where (in_progress_task params.task_id) (finished_task state params at) w.tasks;
  }

  task_ok :
      {h : Handle}
      → finish_task fails state params at db w ≡ (h, ok tt)
      → (count_where (in_progress_task params.task_id) w.tasks ≡ 1)
        × (finish_comment fails params at db task_db ≡ (h, ok tt))
  unfolding finish_task
  task_ok r = ground arith

  task_error :
      {h : Handle} {e : Error}
      → finish_task fails state params at db w ≡ (h, err e)
      → (h ≡ at_rest db) ⊎ (finish_comment fails params at db task_db ≡ (h, err e))
  unfolding finish_task
  task_error r = ground arith

module _ (fails : Faults) (authorize : FinishAuthorization) (params : FinishAttemptParams)
    (db : Db) where
  abbrev run_db : TerminalAttemptState → Time → Db
  run_db state at = record db {
    runs = update_where (finishes authorize params) (finished_run state params at) db.runs;
  }

  tx_ok :
      (state : TerminalAttemptState) (at : Time) {h : Handle}
      → finish_tx fails authorize state params at db ≡ (h, ok tt)
      → (count_where (finishes authorize params) db.runs ≡ 1)
        × (finish_task fails state params at db (run_db state at) ≡ (h, ok tt))
  unfolding finish_tx
  tx_ok state at r = ground arith

  tx_error :
      (state : TerminalAttemptState) (at : Time) {h : Handle} {e : Error}
      → finish_tx fails authorize state params at db ≡ (h, err e)
      → (h ≡ at_rest db) ⊎ (finish_task fails state params at db (run_db state at) ≡ (h, err e))
  unfolding finish_tx
  tx_error state at r = ground arith

  checked_ok :
      (clock : Time) (s : Fallible TerminalAttemptState) {h : Handle}
      → finish_checked fails authorize clock params db s ≡ (h, ok tt)
      → (state : TerminalAttemptState) × (s ≡ ok state)
        × (comment_incomplete params ≡ false)
        × (finish_tx fails authorize state params (finish_time clock params.finished_at) db
            ≡ (h, ok tt))
  unfolding finish_checked
  checked_ok clock (err e) r = cc
  checked_ok clock (ok state) r = (state, refl, ground arith, ground arith)

  checked_error :
      (clock : Time) (s : Fallible TerminalAttemptState) {h : Handle} {e : Error}
      → finish_checked fails authorize clock params db s ≡ (h, err e)
      → (h ≡ at_rest db)
        ⊎ ((state : TerminalAttemptState) × (finish_tx fails authorize state params
                (finish_time clock params.finished_at)
                db
              ≡ (h, err e)))
  unfolding finish_checked
  checked_error clock (err e) r = inl (ground arith)
  checked_error clock (ok state) r = elim (Bool-cases (comment_incomplete params)) [
    | inl c ↦ inl (ground arith)
    | inr c ↦ inr (state, ground arith)
  ]

commented :
    (state : TerminalAttemptState) (authorize : FinishAuthorization) (params : FinishAttemptParams)
    (at : Time) (db : Db)
    → let w =
        task_db no_faults state params at db (run_db no_faults authorize params db state at) in
      (if str_eq params.comment_author "" then w else with_comment params at w)
      ≡ finished_db state authorize params at db
commented state authorize params at db = elim (Bool-cases (str_eq params.comment_author "")) [
  | inl e ↦ rw e
  | inr e ↦ rw e
]

module _ (fails : Faults) (authorize : FinishAuthorization) (clock : Time)
    (params : FinishAttemptParams) (db : Db) where
  -- A finalization that fails leaves the committed tables as they were, and no transaction open.
  pub finish_error :
      {h : Handle} {e : Error}
      → finish_with fails authorize clock params db ≡ (h, err e)
      → h ≡ at_rest db
  unfolding finish_with
  finish_error r = elim (checked_error fails authorize params db clock _ r) [
    | inl e ↦ e
    | inr (state, r') ↦ elim (tx_error fails authorize params db state _ r') [
      | inl e ↦ e
      | inr r2 ↦ elim (task_error fails state params _ db _ r2) [
        | inl e ↦ e
        | inr r3 ↦ comment_error fails params _ db _ r3
      ]
    ]
  ]

  -- A success has one matching run and one matching task, and makes all the writes.
  pub finish_ok :
      {h : Handle}
      → finish_with fails authorize clock params db ≡ (h, ok tt)
      → (state : TerminalAttemptState) × (terminal_state params.completion.outcome ≡ ok state)
        × (count_where (finishes authorize params) db.runs ≡ 1)
        × (count_where (in_progress_task params.task_id) db.tasks ≡ 1)
        × (h
            ≡ at_rest
                (finished_db state authorize params (finish_time clock params.finished_at) db))
  unfolding finish_with
  finish_ok r =
      let (state, s, c, r1) = checked_ok fails authorize params db clock _ r in
      let (n, r2) = tx_ok fails authorize params db state _ r1 in
      let (m, r3) = task_ok fails state params _ db _ r2 in
      (
        state,
        s,
        n,
        m,
        comment_ok fails params _ db _ r3
            ∙ ap at_rest
                (commented state authorize params (finish_time clock params.finished_at) db),
      )
