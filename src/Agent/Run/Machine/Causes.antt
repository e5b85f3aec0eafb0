-- ===== src/Agent/Run/Machine/Causes.antt =====
-- internal/agent/agent.go, run: why a round of the loop commits a state or stops, in terms of what the
-- host answered.
use agent_inbox_question.Base.{
  ℕ, String, ◌+◌, ◌-◌, ◌<◌, ◌≤◌, ◌<>◌, set, ◌≡◌, true, false, Option, none, some, ok, err, ◌⊎◌, not,
  is_some, length, get_elem?, ◌==◌, ◌&&◌,
}
use agent_inbox_question.Base.Text.{itoa}
use agent_inbox_question.Domain.Errors.{Error, Fallible}
use agent_inbox_question.Agent.Plan.{Step}
use agent_inbox_question.Agent.Session.{SessionState, HaltReason, summary_line}
use agent_inbox_question.Agent.Commit.{Event, Host, is_terminal, call_commit, full_commit}
use agent_inbox_question.Agent.Run.{OutcomeKind, Outcome, call_fence, Round, stop, again}

-- What the step that is next prints, how it leaves the session, and the event that reports it.
abbrev pub processed_line : SessionState → Step → String
processed_line s step =
    "[step "
    <> itoa (s.next_step + 1)
    <> "/"
    <> itoa (length s.steps)
    <> "] "
    <> step.name
    <> ": processed"

abbrev pub processed_state : SessionState → Step → SessionState
processed_state s step = record s {
  steps = set s.steps s.next_step (record step { output = processed_line s step; done = true });
  next_step = s.next_step + 1;
  tokens_used = s.tokens_used + step.token_cost;
  tokens_remaining = s.tokens_remaining - step.token_cost;
}

abbrev pub processed_event : SessionState → Step → Event
processed_event s step = record {
  step = s.next_step + 1;
  step_name = step.name;
  output = processed_line s step;
  tokens_used = s.tokens_used + step.token_cost;
}

abbrev pub failure_message : SessionState → Step → String
failure_message s step = "agent error at step " <> itoa (s.next_step + 1) <> ": " <> step.name

-- How a run ends.
abbrev pub ends : OutcomeKind → Option String → Option Outcome
ends kind err_text = some (record { kind = kind; err_text = err_text })

module _ {W : Type 0} (host : Host W) where
  -- The world behind the fence in front of a step, and the one behind the delay and its fence.
  abbrev pub fenced_world : W → W
  fenced_world w = (call_fence host host.fence (host.canceled w).1).1

  abbrev pub awake_world : W → W
  awake_world w = (call_fence host host.fence (host.sleep (fenced_world w)).1).1

  -- A halt is given the time of its first commit.
  pub data Stamps (s : SessionState) (v : W) (s' : SessionState) (v' : W) : Type 0 where
    timed :
        is_terminal s.attempt_halt_reason ≡ true
        → s.attempt_halted_at ≡ none
        → s' ≡ record s { attempt_halted_at = some (host.now v).0 }
        → v' ≡ (host.now v).1
        → Stamps s v s' v'
    untimed :
        (is_terminal s.attempt_halt_reason && not (is_some s.attempt_halted_at)) ≡ false
        → s' ≡ s
        → v' ≡ v
        → Stamps s v s' v'

  -- The commit of `s` behind `previous`, from the world `v` on: its result, the state that is kept and
  -- the world that is left. Under a fence the sink comes first, and its refusal brings the previous
  -- state back; without one the file comes first.
  pub data Commits (previous s : SessionState) (event : Option Event) (v : W)
      (r : Fallible (Unit {0})) (kept : SessionState) (w : W) : Type 0 where
    sink_refuses :
        (e : Error)
        → is_some host.fence ≡ true
        → call_commit host host.commit (full_commit host s event) v ≡ (err e, w)
        → r ≡ err e
        → kept ≡ previous
        → Commits previous s event v r kept w
    sink_first :
        (u : W)
        → is_some host.fence ≡ true
        → call_commit host host.commit (full_commit host s event) v ≡ (ok tt, u)
        → host.persist s u ≡ (r, w)
        → kept ≡ s
        → Commits previous s event v r kept w
    file_refuses :
        (e : Error)
        → is_some host.fence ≡ false
        → host.persist s v ≡ (err e, w)
        → r ≡ err e
        → kept ≡ s
        → Commits previous s event v r kept w
    file_first :
        (u : W)
        → is_some host.fence ≡ false
        → host.persist s v ≡ (ok tt, u)
        → call_commit host host.commit (full_commit host s event) u ≡ (r, w)
        → kept ≡ s
        → Commits previous s event v r kept w

module _ {W : Type 0} (host : Host W) (fail_at : ℕ) (s : SessionState) (w : W) where
  -- The loop is let on to the step that is next: the context lives, and the fence holds.
  pub record Admits (step : Step) : Type 0 where
    pub next : get_elem? s.steps s.next_step ≡ some step
    pub alive : (host.canceled w).0 ≡ false
    pub fenced : (call_fence host host.fence (host.canceled w).1).0 ≡ ok tt

  -- Besides, no failure is planned for it and the window covers it.
  pub record Covers (step : Step) : Type 0 where
    pub admits : Admits step
    pub not_planned : (s.next_step + 1 == fail_at) ≡ false
    pub covered : step.token_cost ≤ s.tokens_remaining

  -- Why the state `s'` is committed, with an event or none, in the world `v`.
  pub data Cause (k : Option Outcome) (s' : SessionState) (event : Option Event) (v : W)
      : Type 0 where
    canceled :
        (step : Step)
        → get_elem? s.steps s.next_step ≡ some step
        → (host.canceled w).0 ≡ true
        → (k ≡ ends OutcomeKind.interrupted (some host.cancel_text))
          × (s' ≡ record s { attempt_halt_reason = HaltReason.interrupted })
        → event ≡ none
        → v ≡ (host.canceled w).1
        → Cause k s' event v
    canceled_asleep :
        (step : Step)
        → Covers step
        → host.no_delay ≡ false
        → (host.sleep (fenced_world host w)).0 ≡ true
        → (k ≡ ends OutcomeKind.interrupted (some host.cancel_text))
          × (s' ≡ record s { attempt_halt_reason = HaltReason.interrupted })
        → event ≡ none
        → v ≡ (host.sleep (fenced_world host w)).1
        → Cause k s' event v
    planned :
        (step : Step)
        → Admits step
        → s.next_step + 1 ≡ fail_at
        → (k ≡ ends OutcomeKind.errored (some (failure_message s step)))
          × (s' ≡ record s {
            attempt_halt_reason = HaltReason.agent_error;
            error_message = failure_message s step;
            errored_at = 0;
          })
        → event ≡ none
        → v ≡ fenced_world host w
        → Cause k s' event v
    too_dear :
        (step : Step)
        → Admits step
        → (s.next_step + 1 == fail_at) ≡ false
        → s.tokens_remaining < step.token_cost
        → (k ≡ ends OutcomeKind.token_budget_exhausted none)
          × (s'
              ≡ record s { attempt_halt_reason = HaltReason.token_exhausted; budget_halted = true })
        → event ≡ none
        → v ≡ fenced_world host w
        → Cause k s' event v
    at_once :
        (step : Step)
        → Covers step
        → host.no_delay ≡ true
        → (k ≡ none) × (s' ≡ processed_state s step)
        → event ≡ some (processed_event s step)
        → v ≡ fenced_world host w
        → Cause k s' event v
    awake :
        (step : Step)
        → Covers step
        → host.no_delay ≡ false
        → (host.sleep (fenced_world host w)).0 ≡ false
        → (call_fence host host.fence (host.sleep (fenced_world host w)).1).0 ≡ ok tt
        → (k ≡ none) × (s' ≡ processed_state s step)
        → event ≡ some (processed_event s step)
        → v ≡ awake_world host w
        → Cause k s' event v
    plan_over :
        get_elem? s.steps s.next_step ≡ none
        → (k ≡ ends OutcomeKind.completed none)
          × (s' ≡ record s { attempt_halt_reason = HaltReason.completed; completed = true })
        → event
          ≡ some (record {
            step = length s.steps;
            step_name = "summary";
            output = summary_line s;
            tokens_used = s.tokens_used;
          })
        → v ≡ w
        → Cause k s' event v

  -- The fence refuses the step, in front of it or behind its delay.
  pub data Refusal (e : Error) (w' : W) : Type 0 where
    in_front :
        (step : Step)
        → get_elem? s.steps s.next_step ≡ some step
        → (host.canceled w).0 ≡ false
        → call_fence host host.fence (host.canceled w).1 ≡ (err e, w')
        → Refusal e w'
    behind :
        (step : Step)
        → Covers step
        → host.no_delay ≡ false
        → (host.sleep (fenced_world host w)).0 ≡ false
        → call_fence host host.fence (host.sleep (fenced_world host w)).1 ≡ (err e, w')
        → Refusal e w'

  -- A commit with its cause, and what it makes of the round.
  pub record Makes (k : Option Outcome) (r : Fallible (Unit {0})) (kept : SessionState) (w' : W)
      : Type 0 where
    pub new : SessionState
    pub event : Option Event
    pub from : W
    pub cause : Cause k new event from
    pub stamped : SessionState
    pub at : W
    pub stamps : Stamps host new from stamped at
    pub commits : Commits host s stamped event at r kept w'

  -- What a round may be.
  abbrev pub Obeys : Round W → Type 0
  Obeys (stop (ok o) s' w') = Makes (some o) (ok tt) s' w'
  Obeys (stop (err e) s' w') =
      (Refusal e w' × (s' ≡ s)) ⊎ ((k : Option Outcome) × Makes k (err e) s' w')
  Obeys (again s' w') = Makes none (ok tt) s' w'
