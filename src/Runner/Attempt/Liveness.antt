-- ===== src/Runner/Attempt/Liveness.antt =====
-- An undisturbed attempt on a plan that its window covers completes its task.
use agent_inbox_question.Base.{
  ℕ, ◌+◌, ◌≤◌, ◌≡◌, refl, ◌∙◌, ap, subst, true, false, Option, none, some, is_some, ok, err, arith,
}
use agent_inbox_question.Domain.Status.{AttemptOutcome}
use agent_inbox_question.Domain.Errors.{Error, Fallible}
use agent_inbox_question.Domain.Completion.{known_origin}
use agent_inbox_question.Agent.Session.{SessionState, HaltReason}
use agent_inbox_question.Agent.Run.{OutcomeKind, Outcome, run, run_fenced}
use agent_inbox_question.Agent.Run.Quiet.{is_completed_kind}
use agent_inbox_question.Agent.Run.Liveness.{Completes, run-Completes_while}
use agent_inbox_question.Agent.Run.Processed.{cost_from}
use agent_inbox_question.Agent.Commit.{Host}
use agent_inbox_question.Agent.Run.Machine.{
  Moves, interrupting, erring, exhausting, stepping, completing,
}
use agent_inbox_question.Agent.Run.Rule.{Post-at, run_loop_rule}
use agent_inbox_question.Store.Finish.{finish_attempt}
use agent_inbox_question.Agent.Run.Results.{IsSound, run-IsSound, run_halts, halt_of}
use agent_inbox_question.Agent.Run.Surroundings.{Left, run_fenced_keeps}
use agent_inbox_question.Store.Database.{Run, Handle}
use agent_inbox_question.Runner.World.{Env, World, pass, put_db}
use agent_inbox_question.Runner.Attempt.{
  Attempt, begun, interlude, attempt_host, reported, write_final, conclude, settle, run_attempt,
}
use agent_inbox_question.Runner.Attempt.Calm.{IsCalm, IsOwned, others-Owned}
use agent_inbox_question.Runner.Attempt.Calm.Quiet.{
  IsCalmAttempt, IsUndisturbed, interlude_calm, attempt_host-IsQuietWhile,
}
use agent_inbox_question.Runner.Attempt.Completion.{
  done_params, final_write_completes, finish_calm, finish-Done, Done,
}

halted : (k : OutcomeKind) → is_completed_kind k ≡ true → halt_of k ≡ HaltReason.completed
halted k h = ground (arith, h)

-- The loop leaves the origin of the session's window.
Moves-origin :
    (fail_at : ℕ) (s s' : SessionState) (k : Option OutcomeKind)
    → Moves fail_at s s' k
    → s'.attempt_window_origin ≡ s.attempt_window_origin
Moves-origin fail_at s s' k (interrupting t h q e) = rw e refl
Moves-origin fail_at s s' k (erring t message h f q e) = rw e refl
Moves-origin fail_at s s' k (exhausting t step h n c q e) = rw e refl
Moves-origin fail_at s s' k (completing t h n q e) = rw e refl
Moves-origin fail_at s s' k (stepping t step n c q e) = rw e refl

run-origin :
    {W : Type 0} (host : Host W) (s s' : SessionState) (w w' : W) (r : Fallible Outcome)
    → run host s w ≡ some (r, s', w')
    → s'.attempt_window_origin ≡ s.attempt_window_origin
unfolding run
run-origin host s s' w w' r e =
    let same = λ (t : SessionState). t.attempt_window_origin ≡ s.attempt_window_origin in
    Post-at (λ r t. t.attempt_window_origin ≡ s.attempt_window_origin) _ r s' w'
      (run_loop_rule host s.errored_at same
        (λ r t. t.attempt_window_origin ≡ s.attempt_window_origin)
        (λ s t p m. Moves-origin _ s t none m ∙ p) (λ s r p _. p)
        (λ s t k r p m _. Moves-origin _ s t k m ∙ p) _ s w refl)
      e

module _ (env : Env) (run' : Run) (task_id : ℕ) (calm : IsCalm env run' task_id) where
  reported_calm :
      (a : Attempt) (o : AttemptOutcome) (x : Handle × Fallible (Unit {0}))
      → x.1 ≡ ok tt
      → a.output_failed ≡ false
      → reported env run' a o x ≡ (ok o, put_db a.world x.0.committed)
  reported_calm a o (h, ok u) e f = rw f refl
  reported_calm a o (h, err y) e f = cc

  -- The attempt is over, with success and what it leaves.
  abbrev pub EndsDone : ℕ → Fallible AttemptOutcome × World → Type 0
  EndsDone tokens x = (x.0 ≡ ok AttemptOutcome.completed) × Done env run' task_id calm tokens x.1.db

  write_final_calm :
      (s : SessionState) (a : Attempt)
      → IsCalmAttempt env run' task_id calm a
      → EndsDone s.tokens_used (write_final env run' a (ok (done_params env run' task_id calm s a)))
  unfolding write_final pass
  write_final_calm s a v =
      let m = a.world.moment in
      let owned = others-Owned env run' task_id calm m a.world.db (m + 1) v.next in
      let db = env.others m a.world.db in
      rw
        (reported_calm (record a { world = record { db = db; moment = m + 1 } })
          AttemptOutcome.completed
          (finish_attempt env.dates (env.sql_now (m + 1)) (env.fails (m + 1)) (env.clock (m + 1))
            (done_params env run' task_id calm s a) db)
          (finish_calm env run' task_id calm s a (m + 1) db owned) v.printed_so_far)
        (refl, finish-Done env run' task_id calm s a (m + 1) db owned)

  conclude_calm :
      (start_step : ℕ) (o : Outcome) (s : SessionState) (a : Attempt) (e : Option Error)
      → is_some e ≡ false
      → IsCalmAttempt env run' task_id calm a
      → IsSound s
      → s.attempt_halt_reason ≡ HaltReason.completed
      → known_origin s.attempt_window_origin ≡ true
      → EndsDone s.tokens_used (conclude env run' task_id start_step s a e (ok o))
  unfolding conclude
  conclude_calm start_step o s a (some y) n v sound h k = cc
  conclude_calm start_step o s a none n v sound h k =
      rw (final_write_completes env run' task_id calm start_step o s a sound h k)
        (write_final_calm s a v)

  settle_calm :
      (start_step : ℕ) (o : Outcome) (s : SessionState) (a : Attempt)
      → IsCalmAttempt env run' task_id calm a
      → IsSound s
      → s.attempt_halt_reason ≡ HaltReason.completed
      → known_origin s.attempt_window_origin ≡ true
      → (x : Fallible AttemptOutcome × World) × (settle env run' task_id start_step
            (some (ok o, s, a))
          ≡ some x)
        × EndsDone s.tokens_used x
  unfolding settle
  settle_calm start_step o s a v sound h k =
      let b = record a { canceled = true } in
      let u : IsCalmAttempt env run' task_id calm b = record {
        renewed_so_far = v.renewed_so_far;
        printed_so_far = v.printed_so_far;
        now = v.now;
        next = v.next;
      } in
      let (c, _) = interlude_calm env run' task_id calm b u in
      (_, refl, conclude_calm start_step o s (interlude env run' b) _ c.renewed_so_far c sound h k)

  -- Where no call fails, the context lives, the lease is renewed in front of each operation and lasts
  -- two more, and the other processes spare the rows of the run and of its task, an attempt that holds
  -- its lease, on a sound session of a known origin with no failure planned whose window covers the
  -- rest of its plan, reports completion; then a row of the task is done, and a row of the run is a
  -- success with exactly the tokens of that plan.
  pub run_attempt-Completes :
      (s : SessionState) (w : World)
      → IsOwned env run' task_id w.db w.moment
      → IsOwned env run' task_id w.db (w.moment + 1)
      → IsSound s
      → known_origin s.attempt_window_origin ≡ true
      → s.errored_at ≡ 0
      → cost_from s.steps s.next_step ≤ s.tokens_remaining
      → (x : Fallible AttemptOutcome × World) × (run_attempt env run' task_id s w ≡ some x)
        × EndsDone (s.tokens_used + cost_from s.steps s.next_step) x
  unfolding run_attempt run_fenced attempt_host
  run_attempt-Completes s w now next sound known no_failure covered =
      let host = attempt_host env run' in
      let calm_attempt : IsCalmAttempt env run' task_id calm (begun w) = record {
        renewed_so_far = refl;
        printed_so_far = refl;
        now = now;
        next = next;
      } in
      let undisturbed : IsUndisturbed env run' task_id calm (begun w) = record {
        attempt = calm_attempt;
        alive = refl;
      } in
      let (x, e, done) =
        run-Completes_while (IsUndisturbed env run' task_id calm) host s (begun w)
          (attempt_host-IsQuietWhile env run' task_id calm) undisturbed no_failure sound.in_plan
          covered in
      let kept =
        run_fenced_keeps (IsUndisturbed env run' task_id calm) host
          (attempt_host-IsQuietWhile env run' task_id calm).keeps s (begun w) undisturbed in
      rw e (by_result x e done (subst (Left (IsUndisturbed env run' task_id calm)) e kept))
    where
      by_result :
          (x : Fallible Outcome × SessionState × Attempt)
          → run (attempt_host env run') s (begun w) ≡ some x
          → Completes s x.0 x.1
          → IsUndisturbed env run' task_id calm x.2
          → (y : Fallible AttemptOutcome × World) × (settle env run' task_id s.next_step (some x)
              ≡ some y)
            × EndsDone (s.tokens_used + cost_from s.steps s.next_step) y
      by_result (err y, s', a) e (c, n, p, t) v = cc
      by_result (ok o, s', a) e (c, n, p, t) v =
          let (h, _) = run_halts (attempt_host env run') s s' (begun w) a o e in
          rw (← t) (
            settle_calm s.next_step o s' a v.attempt
              (run-IsSound (attempt_host env run') s s' (begun w) a (ok o) sound e)
              (h ∙ halted o.kind c)
              (ap known_origin (run-origin (attempt_host env run') s s' (begun w) a (ok o) e)
                ∙ known))
