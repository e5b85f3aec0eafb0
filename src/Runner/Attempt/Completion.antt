-- ===== src/Runner/Attempt/Completion.antt =====
-- The final write of a completed session by an attempt that holds its lease.
use text.Mathlib.TextEquality.{eq_iff}
use agent_inbox_question.Base.{
  ℕ, ◌+◌, ◌≤◌, ◌≡◌, refl, ◌∙◌, ap, Bool, true, false, ◌&&◌, ok, arith, inl, inr, Bool-cases, ◌==◌,
  str_eq, String, ◌<>◌, Time, Duration, List, [], ◌∷◌, length, length-append, pair_eq,
}
use agent_inbox_question.Base.Text.{codes, codes-append, itoa}
use agent_inbox_question.Domain.Status.{AttemptOutcome, RunStatus}
use agent_inbox_question.Domain.Continuation.{no_continuation}
use agent_inbox_question.Domain.Completion.{
  TerminalAttemptState, terminal_state, known_origin, decide_attempt_completion,
}
use agent_inbox_question.Agent.Session.{SessionState, AttemptCheckpoint, HaltReason}
use agent_inbox_question.Agent.Session.Laws.{attempt_checkpoint_total}
use agent_inbox_question.Agent.Run.{Outcome}
use agent_inbox_question.Store.Tasks.{is_done}
use agent_inbox_question.Store.Finish.{
  FinishAuthorization, FinishAttemptParams, finish_attempt, finish_with, finish_checked, finish_tx,
  finish_task, finish_comment, commit_finish, finishes, owner_finish_authorization, finished_run,
  finished_task, in_progress_task, finish_time,
}
use agent_inbox_question.Store.Finish.Laws.{finish_ok}
use agent_inbox_question.Agent.Run.Results.{IsSound}
use agent_inbox_question.Store.Table.{count_where, count_where_moved}
use agent_inbox_question.Store.Database.{Db, Run, TaskRow, SqlCall}
use agent_inbox_question.Runner.Terminalize.{
  AttemptTerminalization, terminalize_checkpoint, summary, join_with, done_steps, status_part,
  feedback_part,
}
use agent_inbox_question.Runner.World.{Env}
use agent_inbox_question.Runner.Attempt.{Attempt, final_write, final_params, text_or_empty}
use agent_inbox_question.Runner.Attempt.Calm.{IsCalm, IsOwned}

abbrev pub completed_ending : SessionState → AttemptTerminalization
completed_ending s = record {
  completion = record { outcome = AttemptOutcome.completed; continuation = no_continuation };
  error_text = "";
  comment_author = "agent";
  comment_body = summary s;
}

terminalize_completes :
    (s : SessionState) (c : AttemptCheckpoint) (start_step : ℕ) (at : Time) (reset : Duration)
    (text : String)
    → c.halt_reason ≡ HaltReason.completed
    → known_origin c.window_origin ≡ true
    → terminalize_checkpoint s c start_step at reset text ≡ ok (completed_ending s)
unfolding terminalize_checkpoint decide_attempt_completion
terminalize_completes s c start_step at reset text h k = ground (arith, h, k)

-- A text with something in it.
not_empty : (t : String) → 1 ≤ length (codes t) → str_eq t "" ≡ false
not_empty t h = elim (Bool-cases (str_eq t "")) [
  | inl e ↦ absurd (omega (arith, h, ap (λ (u : String). length (codes u)) ((eq_iff t "").0 e)))
  | inr e ↦ e
]

length-codes : (s t : String) → length (codes (s <> t)) ≡ length (codes s) + length (codes t)
length-codes s t = ap length (codes-append s t) ∙ length-append (codes s) (codes t)

join_with_longer :
    (sep p : String) (ps : List String) → length (codes p) ≤ length (codes (join_with sep (p ∷ ps)))
join_with_longer sep p [] = omega arith
join_with_longer sep p (q ∷ qs) = omega (arith, length-codes p (sep <> join_with sep (q ∷ qs)))

summary_not_empty : (s : SessionState) → str_eq (summary s) "" ≡ false
unfolding summary
summary_not_empty s =
    let n = itoa (done_steps s.steps) in
    let rest = "/" <> itoa (length s.steps) <> " steps completed" in
    not_empty _ (
      omega (
        arith,
        join_with_longer ", " (n <> rest)
            (status_part s (feedback_part (join_with "; " s.feedback))),
        length-codes n rest,
        length-codes "/" (itoa (length s.steps) <> " steps completed"),
      ))

abbrev pub is_done_task : ℕ → TaskRow → Bool
is_done_task t k = k.id == t && is_done k.status

abbrev pub is_succeeded : RunStatus → Bool
is_succeeded RunStatus.succeeded = true
is_succeeded _ = false

-- The run is recorded as a success, with the tokens that it used.
abbrev pub is_paid_run : ℕ → ℕ → Run → Bool
is_paid_run id tokens r = r.id == id && is_succeeded r.status && r.tokens_used == tokens

module _ (state : TerminalAttemptState) (params : FinishAttemptParams) (at : Time)
    (completed : terminal_state AttemptOutcome.completed ≡ ok state) where
  done_row :
      (t : ℕ) (k : TaskRow)
      → in_progress_task t k ≡ true
      → is_done_task t (finished_task state params at k) ≡ true
  unfolding terminal_state
  done_row t k h = ground (arith, completed, h)

  paid_row :
      (authorize : FinishAuthorization) (r : Run)
      → finishes authorize params r ≡ true
      → is_paid_run params.run_id params.tokens_used (finished_run state params at r) ≡ true
  unfolding terminal_state finishes
  paid_row authorize r h = ground (arith, completed, h)

module _ (env : Env) (run' : Run) (task_id : ℕ) (calm : IsCalm env run' task_id) where
  -- The parameters of the final write of a completed session.
  abbrev pub done_params : SessionState → Attempt → FinishAttemptParams
  done_params s a =
      final_params env run' task_id s a (env.clock a.world.moment) (completed_ending s)

  pub final_write_completes :
      (start_step : ℕ) (o : Outcome) (s : SessionState) (a : Attempt)
      → IsSound s
      → s.attempt_halt_reason ≡ HaltReason.completed
      → known_origin s.attempt_window_origin ≡ true
      → final_write env run' task_id start_step o s a ≡ ok (done_params s a)
  unfolding final_write
  final_write_completes start_step o s a v h k =
      let (c, e, _, _, _, halt, origin) = attempt_checkpoint_total s v.begun v.in_plan in
      let t =
        terminalize_completes s c start_step (env.clock a.world.moment) env.reset_interval
          (text_or_empty env run' o.err_text) (halt ∙ h) (ap known_origin origin ∙ k) in
      rw (e, t) refl

  pub finish_calm :
      (s : SessionState) (a : Attempt) (m : ℕ) (db : Db)
      → IsOwned env run' task_id db m
      → (finish_attempt env.dates
          (env.sql_now m)
          (env.fails m)
          (env.clock m)
          (done_params s a)
          db).1
        ≡ ok tt
  unfolding finish_attempt finish_with finish_checked finish_tx finish_task finish_comment
      commit_finish terminal_state finishes owner_finish_authorization
  finish_calm s a m db v =
      let fits : count_where
            (finishes (owner_finish_authorization env.dates (env.sql_now m)) (done_params s a))
            db.runs
          ≡ 1 =
        v.held in
      rw
        (
          summary_not_empty s,
          calm.no_faults m SqlCall.begin_tx,
          calm.no_faults m SqlCall.first_exec,
          calm.no_faults m SqlCall.first_count,
          fits,
          calm.no_faults m SqlCall.second_exec,
          calm.no_faults m SqlCall.second_count,
          v.claimed,
          calm.no_faults m SqlCall.insert,
          calm.no_faults m SqlCall.commit_tx,
        )
        refl

  -- What the final write leaves.
  abbrev pub Done : ℕ → Db → Type 0
  Done tokens db =
      (1 ≤ count_where (is_done_task task_id) db.tasks)
      × (1 ≤ count_where (is_paid_run run'.id tokens) db.runs)

  pub finish-Done :
      (s : SessionState) (a : Attempt) (m : ℕ) (db : Db)
      → IsOwned env run' task_id db m
      → Done s.tokens_used
          (finish_attempt env.dates
            (env.sql_now m)
            (env.fails m)
            (env.clock m)
            (done_params s a)
            db).0.committed
  unfolding finish_attempt
  finish-Done s a m db v =
      let params = done_params s a in
      let authorize = owner_finish_authorization env.dates (env.sql_now m) in
      let (state, t, n, c, f) =
        finish_ok (env.fails m) authorize (env.clock m) params db
          (pair_eq _ refl (finish_calm s a m db v)) in
      let at = finish_time (env.clock m) params.finished_at in
      let tasks =
        count_where_moved (is_done_task task_id) (in_progress_task task_id)
          (in_progress_task task_id) (finished_task state params at)
          (λ k h. (h, done_row state params at t task_id k h)) db.tasks in
      let runs =
        count_where_moved (is_paid_run run'.id s.tokens_used) (finishes authorize params)
          (finishes authorize params) (finished_run state params at)
          (λ r h. (h, paid_row state params at t authorize r h)) db.runs in
      rw f (omega (arith, tasks, c), omega (arith, runs, n))
