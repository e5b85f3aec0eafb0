-- ===== src/Runner/Attempt.antt =====
-- internal/runner/runner.go: runAttempt with its fence, its sink and the goroutine renewLease.
pub mod Keeps
pub mod Rule
pub mod Laws
pub mod Calm
pub mod Completion
pub mod Liveness
use agent_inbox_question.Base.{
  ℕ, String, Time, Bool, true, false, ◌&&◌, ◌||◌, not, Option, none, some, List, [], ◌∷◌, ◌++◌,
  if◌then◌else◌, is_some, ok, err, ◌>>=◌,
}
use agent_inbox_question.Domain.Status.{AttemptOutcome}
use agent_inbox_question.Domain.Errors.{Error, Fallible, is_lease_lost}
use agent_inbox_question.Agent.Session.{SessionState, attempt_checkpoint, join}
use agent_inbox_question.Agent.Commit.{Event, StateCommit, Host}
use agent_inbox_question.Agent.Run.{Outcome, run_fenced}
use agent_inbox_question.Store.Database.{Db, Run, Handle}
use agent_inbox_question.Store.Progress.{AttemptProgress, update_progress, renew_lease}
use agent_inbox_question.Store.Finish.{FinishAttemptParams, finish_attempt}
use agent_inbox_question.Runner.Terminalize.{AttemptTerminalization, terminalize_checkpoint}
use agent_inbox_question.Runner.Resume.{lease_or_default}
use agent_inbox_question.Runner.World.{Env, World, pass, put_db}

-- The variables of runAttempt: `outputLines`, `outputErr`, whether `attemptCtx` is canceled, and the
-- error that renewLease has put into its channel.
pub record Attempt : Type 0 where
  pub world : World
  pub lines : List String
  pub output_failed : Bool
  pub canceled : Bool
  pub renewal_error : Option Error

abbrev pub begun : World → Attempt
begun w = record {
  world = w;
  lines = [];
  output_failed = false;
  canceled = false;
  renewal_error = none;
}

abbrev pub after_renewal : Attempt → Db × Fallible (Unit {0}) → Attempt
after_renewal a (db, ok _) = record a { world = put_db a.world db }
after_renewal a (db, err e) = record a {
  world = put_db a.world db;
  canceled = true;
  renewal_error = some e;
}

module _ (env : Env) (run : Run) where
  unfoldable pub renew_now : World → Db × Fallible (Unit {0})
  renew_now w =
      renew_lease env.dates (env.sql_now w.moment) (env.fails w.moment) run.id run.owner_token
        (lease_or_default env.lease_duration) w.db

  -- A round of renewLease: the ticker fires, unless the goroutine has returned with its error.
  unfoldable pub lease_tick : Attempt → Attempt
  unfolding renew_now
  lease_tick a =
      if env.renews a.world.moment && not (is_some a.renewal_error)
      then after_renewal a (renew_now a.world)
      else a

  -- What happens in front of an operation of the worker: others act, the lease may be renewed, and
  -- others act again.
  unfoldable pub interlude : Attempt → Attempt
  unfolding lease_tick pass
  interlude a =
      let a' = lease_tick (record a { world = pass env a.world }) in
      record a' { world = pass env a'.world }

  -- `<-attemptCtx.Done()`.
  unfoldable pub look : Attempt → Bool × Attempt
  unfolding interlude
  look a = let a' = interlude a in (a'.canceled || env.done a'.world.moment, a')

  abbrev pub fenced : Attempt → Db × Fallible (Unit {0}) → Fallible (Unit {0}) × Attempt
  fenced a (db, r) = (r, record a { world = put_db a.world db })

  unfoldable pub fence : Attempt → Fallible (Unit {0}) × Attempt
  unfolding interlude renew_now
  fence a = let a' = interlude a in fenced a' (renew_now a'.world)

  abbrev pub event_lines : Option Event → List String
  event_lines none = []
  event_lines (some e) = e.output ∷ []

  abbrev pub progress_of : StateCommit → List String → AttemptProgress
  progress_of change lines = record {
    run_id = run.id;
    owner_token = run.owner_token;
    output = join lines;
    tokens_used = change.tokens_used;
    checkpoint = change.checkpoint;
  }

  abbrev pub published :
      StateCommit → Attempt → Db × Fallible (Unit {0}) → Fallible (Unit {0}) × Attempt
  published change a (db, err e) =
      (err e, record a { world = put_db a.world db; canceled = a.canceled || is_lease_lost e })
  published change a (db, ok _) = (
    ok tt,
    record a {
      world = put_db a.world db;
      lines = a.lines ++ event_lines change.event;
      output_failed =
          a.output_failed
          || (is_some change.event && env.has_output && not (env.prints a.world.moment));
    },
  )

  unfoldable pub sink : StateCommit → Attempt → Fallible (Unit {0}) × Attempt
  unfolding interlude
  sink change a =
      let a' = interlude a in
      published change a' (
        update_progress env.dates (env.sql_now a'.world.moment) (env.fails a'.world.moment)
          (progress_of change (a'.lines ++ event_lines change.event)) a'.world.db)

  unfoldable pub attempt_host : Host Attempt
  unfolding look fence sink interlude
  attempt_host = record {
    json = env.json;
    no_delay = env.no_delay;
    cancel_text = env.cancel_text;
    canceled = look;
    sleep = look;
    fence = some fence;
    commit = some sink;
    persist = λ s a. let a' = interlude a in (env.files a'.world.moment, a');
    now = λ a. (env.clock a.world.moment, a);
  }

  -- The parameters of the final write, with the outcome that they record.
  abbrev pub final_params :
      ℕ → SessionState → Attempt → Time → AttemptTerminalization → FinishAttemptParams
  final_params task_id s a at terminal = record {
    run_id = run.id;
    task_id = task_id;
    owner_token = run.owner_token;
    output = join a.lines;
    tokens_used = s.tokens_used;
    error = terminal.error_text;
    comment_author = terminal.comment_author;
    comment_body = terminal.comment_body;
    finished_at = at;
    session_checkpoint = env.json.marshal s;
    completion = terminal.completion;
  }

  abbrev pub text_or_empty : Option String → String
  text_or_empty none = ""
  text_or_empty (some t) = t

  unfoldable pub final_write :
      ℕ → ℕ → Outcome → SessionState → Attempt → Fallible FinishAttemptParams
  final_write task_id start_step outcome s a = do
    c ← attempt_checkpoint s
    terminal ←
        terminalize_checkpoint s c start_step (env.clock a.world.moment) env.reset_interval
          (text_or_empty outcome.err_text)
    ok (final_params task_id s a (env.clock a.world.moment) terminal)

  -- A refusal of the final write is its result; a failed print is reported once it is made.
  abbrev pub reported :
      Attempt → AttemptOutcome → Handle × Fallible (Unit {0}) → Fallible AttemptOutcome × World
  reported a outcome (h, err e) = (err e, put_db a.world h.committed)
  reported a outcome (h, ok _) = (
    (if a.output_failed then err (Error.failure "write attempt output") else ok outcome),
    put_db a.world h.committed,
  )

  unfoldable pub write_final :
      Attempt → Fallible FinishAttemptParams → Fallible AttemptOutcome × World
  unfolding pass
  write_final a (err e) = (err e, a.world)
  write_final a (ok params) =
      let w = pass env a.world in
      reported (record a { world = w }) params.completion.outcome
        (finish_attempt env.dates (env.sql_now w.moment) (env.fails w.moment) (env.clock w.moment)
          params w.db)

  -- The errors of the renewal and of the session come in front of the final write.
  unfoldable pub conclude :
      ℕ
      → ℕ
      → SessionState
      → Attempt
      → Option Error
      → Fallible Outcome
      → Fallible AttemptOutcome × World
  unfolding final_write write_final
  conclude task_id start_step s a (some e) r = (err e, a.world)
  conclude task_id start_step s a none (err e) = (err e, a.world)
  conclude task_id start_step s a none (ok outcome) =
      write_final a (final_write task_id start_step outcome s a)

  -- `cancel()` and the wait for renewLease.
  unfoldable pub settle :
      ℕ
      → ℕ
      → Option (Fallible Outcome × SessionState × Attempt)
      → Option (Fallible AttemptOutcome × World)
  unfolding interlude conclude
  settle task_id start_step none = none
  settle task_id start_step (some (r, s, a)) =
      let a' = interlude (record a { canceled = true }) in
      some (conclude task_id start_step s a' a'.renewal_error r)

  -- Nothing where the session's loop runs out of fuel.
  unfoldable pub run_attempt : ℕ → SessionState → World → Option (Fallible AttemptOutcome × World)
  unfolding settle attempt_host
  run_attempt task_id s w = settle task_id s.next_step (run_fenced attempt_host s (begun w))
