-- ===== src/Agent/Run.antt =====
-- internal/agent/agent.go: RunFenced, Run and their loop, over the host of Agent.Commit.
pub mod Machine
pub mod Rule
pub mod Results
pub mod Quiet
pub mod Processed
pub mod Liveness
pub mod Surroundings
use agent_inbox_question.Base.{
  ℕ, zero, suc, ◌+◌, ◌-◌, String, ◌<>◌, true, false, ◌&&◌, not, Option, none, some, length,
  get_elem?, set, ltb, ◌==◌, if◌then◌else◌, is_some, ok, err,
}
use agent_inbox_question.Base.Text.{itoa}
use agent_inbox_question.Domain.Errors.{Error, Fallible}
use agent_inbox_question.Agent.Plan.{Step}
use agent_inbox_question.Agent.Commit.{Host, commit_state}
use agent_inbox_question.Agent.Session.{SessionState, HaltReason, summary_line}

pub data OutcomeKind : Type 0 where
  unknown completed errored token_budget_exhausted interrupted : OutcomeKind

pub record Outcome : Type 0 where
  pub kind : OutcomeKind
  pub err_text : Option String

-- A round of the loop ends the run or asks for another.
pub data Round (W : Type 0) : Type 0 where
  stop : Fallible Outcome → SessionState → W → Round W
  again : SessionState → W → Round W

-- The step is done and its cost is taken.
abbrev pub advanced : SessionState → Step → SessionState
advanced s step = record s {
  steps = set s.steps s.next_step (record step { output = output; done = true });
  tokens_used = s.tokens_used + step.token_cost;
  tokens_remaining = s.tokens_remaining - step.token_cost;
  next_step = s.next_step + 1;
}
  where
    output : String
    output =
        "[step "
        <> itoa (s.next_step + 1)
        <> "/"
        <> itoa (length s.steps)
        <> "] "
        <> step.name
        <> ": processed"

-- The four ways in which a round halts the session.
abbrev pub interrupted_state : SessionState → SessionState
interrupted_state s = record s { attempt_halt_reason = HaltReason.interrupted }

abbrev pub errored_state : String → SessionState → SessionState
errored_state message s = record s {
  attempt_halt_reason = HaltReason.agent_error;
  error_message = message;
  errored_at = 0;
}

abbrev pub exhausted_state : SessionState → SessionState
exhausted_state s = record s {
  budget_halted = true;
  attempt_halt_reason = HaltReason.token_exhausted;
}

abbrev pub completed_state : SessionState → SessionState
completed_state s = record s { completed = true; attempt_halt_reason = HaltReason.completed }

abbrev pub error_message_at : SessionState → Step → String
error_message_at s step = "agent error at step " <> itoa (s.next_step + 1) <> ": " <> step.name

module _ {W : Type 0} (host : Host W) where
  -- After a commit: the error, or what comes next.
  abbrev pub stop_with : Outcome → Fallible (Unit {0}) × SessionState × W → Round W
  stop_with outcome (err e, s, w) = stop (err e) s w
  stop_with outcome (ok _, s, w) = stop (ok outcome) s w

  abbrev pub go_on : Fallible (Unit {0}) × SessionState × W → Round W
  go_on (err e, s, w) = stop (err e) s w
  go_on (ok _, s, w) = again s w

  unfoldable pub interrupt : SessionState → W → Round W
  interrupt s w =
      stop_with (record { kind = OutcomeKind.interrupted; err_text = some host.cancel_text })
        (commit_state host s (interrupted_state s) none w)

  unfoldable pub take_step : SessionState → Step → W → Round W
  take_step s step w =
      let s' = advanced s step in
      go_on (
        commit_state host s s'
          (some (record {
            step = s.next_step + 1;
            step_name = step.name;
            output =
                "[step "
                <> itoa (s.next_step + 1)
                <> "/"
                <> itoa (length s.steps)
                <> "] "
                <> step.name
                <> ": processed";
            tokens_used = s'.tokens_used;
          }))
          w)

  abbrev pub call_fence : Option (W → Fallible (Unit {0}) × W) → W → Fallible (Unit {0}) × W
  call_fence none w = (ok tt, w)
  call_fence (some f) w = f w

  -- The second fence, behind the delay.
  unfoldable pub fence_again : SessionState → Step → W → Round W
  fence_again s step w =
      let (r, w') = call_fence host.fence w in
      elim r [ err e ↦ stop (err e) s w' | ok _ ↦ take_step s step w' ]

  unfoldable pub delay_step : SessionState → Step → W → Round W
  delay_step s step w =
      let (r, w') = host.sleep w in elim r [ true ↦ interrupt s w' | false ↦ fence_again s step w' ]

  unfoldable pub agent_error : SessionState → Step → W → Round W
  agent_error s step w =
      let message = error_message_at s step in
      stop_with (record { kind = OutcomeKind.errored; err_text = some message })
        (commit_state host s (errored_state message s) none w)

  unfoldable pub exhaust : SessionState → W → Round W
  exhaust s w =
      stop_with (record { kind = OutcomeKind.token_budget_exhausted; err_text = none })
        (commit_state host s (exhausted_state s) none w)

  -- From the planned failure on; `fail_at` is 0 where none is planned.
  unfoldable pub attempt_step : ℕ → SessionState → Step → W → Round W
  attempt_step fail_at s step w =
      if ltb 0 fail_at && s.next_step + 1 == fail_at
      then agent_error s step w
      else if ltb s.tokens_remaining step.token_cost
      then exhaust s w
      else if host.no_delay
      then take_step s step w
      else delay_step s step w

  unfoldable pub fenced_step : ℕ → SessionState → Step → W → Round W
  fenced_step fail_at s step w =
      let (r, w') = call_fence host.fence w in
      elim r [ err e ↦ stop (err e) s w' | ok _ ↦ attempt_step fail_at s step w' ]

  -- The body of the loop at the step that is next.
  unfoldable pub loop_body : ℕ → SessionState → Step → W → Round W
  loop_body fail_at s step w =
      let (r, w') = host.canceled w in
      elim r [ true ↦ interrupt s w' | false ↦ fenced_step fail_at s step w' ]

  -- What follows the loop.
  unfoldable pub complete : SessionState → W → Round W
  complete s w =
      stop_with (record { kind = OutcomeKind.completed; err_text = none })
        (commit_state host s (completed_state s)
          (some (record {
            step = length s.steps;
            step_name = "summary";
            output = summary_line s;
            tokens_used = s.tokens_used;
          }))
          w)

  -- `s.state.NextStep < len(s.state.Steps)` holds as long as there is a step to read.
  unfoldable pub round : ℕ → SessionState → W → Round W
  round fail_at s w = elim (get_elem? s.steps s.next_step) [
    | none ↦ complete s w
    | some step ↦ loop_body fail_at s step w
  ]

  -- Nothing where the fuel runs out.
  unfoldable pub run_loop : ℕ → ℕ → SessionState → W → Option (Fallible Outcome × SessionState × W)
  run_loop zero fail_at s w = none
  run_loop (suc fuel) fail_at s w = elim (round fail_at s w) [
    | stop r s' w' ↦ some (r, s', w')
    | again s' w' ↦ run_loop fuel fail_at s' w'
  ]

  -- A round that goes on has done a step, so one round more than there are steps is enough.
  unfoldable pub run : SessionState → W → Option (Fallible Outcome × SessionState × W)
  run s w = run_loop (suc (length s.steps - s.next_step)) s.errored_at s w

  unfoldable pub run_fenced : SessionState → W → Option (Fallible Outcome × SessionState × W)
  run_fenced s w =
      if not (is_some host.fence)
      then some (err (Error.failure "step fence is required"), s, w)
      else if not (is_some host.commit)
      then some (err (Error.failure "fenced state sink is required"), s, w)
      else run s w
