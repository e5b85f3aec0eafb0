-- ===== src/Tests/AgentRuns.antt =====
-- A session of two steps on a host that disturbs nothing, and one whose window is too small.
use agent_inbox_question.Base.{
  ℕ, suc, ◌+◌, ◌≤◌, ◌<◌, ◌*◌, ◌≡◌, refl, true, false, none, some, ok, [], ◌∷◌, get_elem?, arith,
}
use agent_inbox_question.Base.Text.{itoa}
use agent_inbox_question.Domain.Errors.{Fallible}
use agent_inbox_question.Domain.Status.{ProviderWindowOrigin}
use agent_inbox_question.Agent.Plan.{Step, parse_directives, build_steps, new_step}
use agent_inbox_question.Agent.Plan.Laws.{total_cost, build_steps_cost}
use agent_inbox_question.Agent.Session.{SessionState, HaltReason}
use agent_inbox_question.Agent.Commit.{Host, commit_state, commit_then_persist, stamp}
use agent_inbox_question.Agent.Run.{
  Outcome, OutcomeKind, run, run_loop, round, loop_body, fenced_step, attempt_step, exhaust,
}
use agent_inbox_question.Agent.Run.Rule.{run_total}
use agent_inbox_question.Agent.Run.Results.{IsSound, run-IsSound, run_oversized}
use agent_inbox_question.Agent.Run.Liveness.{Completes, run-Completes}
use agent_inbox_question.Agent.Run.Quiet.{IsQuiet}

-- The world is the clock.
abbrev quiet_host : Host ℕ
quiet_host = record {
  json = record { marshal = λ _. "{}"; unmarshal = λ _. none };
  no_delay = true;
  cancel_text = "context canceled";
  canceled = λ w. (false, w);
  sleep = λ w. (false, w);
  fence = some (λ w. (ok tt, w));
  commit = some (λ c w. (ok tt, w));
  persist = λ s w. (ok tt, w);
  now = λ w. (w, suc w);
}

quiet_host-IsQuiet : IsQuiet quiet_host
quiet_host-IsQuiet = record {
  goes_on = λ w. refl;
  sleeps = λ w. refl;
  fences = λ w. refl;
  commits = λ c w. refl;
  persists = λ s w. refl;
}

abbrev pub two_steps : SessionState
two_steps = record {
  id = "s";
  task_title = "t";
  task_desc = "";
  feedback = [];
  steps = new_step "analyze" 200 ∷ new_step "research" 300 ∷ [];
  budget_model_version = 3;
  configured_token_budget = 500;
  attempt_token_allowance = 500;
  attempt_window_origin = ProviderWindowOrigin.fresh;
  tokens_remaining = 500;
  tokens_used = 0;
  next_step = 0;
  completed = false;
  errored_at = 0;
  error_message = "";
  budget_halted = false;
  legacy_token_budget = 0;
  attempt_run_id = 1;
  attempt_owner_token = "a";
  attempt_start_step = 0;
  attempt_halt_reason = HaltReason.running;
  attempt_halted_at = none;
}

abbrev pub too_small : SessionState
too_small = record two_steps { attempt_token_allowance = 100; tokens_remaining = 100 }

two_steps-IsSound : IsSound two_steps
two_steps-IsSound = omega arith

too_small-IsSound : IsSound too_small
too_small-IsSound = omega arith

abbrev exhausted_outcome : Outcome
exhausted_outcome = record { kind = OutcomeKind.token_budget_exhausted; err_text = none }

abbrev exhausted : SessionState
exhausted = record too_small {
  budget_halted = true;
  attempt_halt_reason = HaltReason.token_exhausted;
  attempt_halted_at = some 7;
}

exhausts : run quiet_host too_small 7 ≡ some (ok exhausted_outcome, exhausted, 8)
unfolding run run_loop round loop_body fenced_step attempt_step exhaust commit_state
    commit_then_persist stamp
exhausts = refl

-- Directives are read from any place in a description, the last of a kind counts.
directives_read :
    parse_directives "x [steps:12] [budget:500][steps:3 [fail-at:2] [steps:30]"
    ≡ record { steps = some 30; fail_at = some 2; budget = some 500 }
unfolding parse_directives
directives_read = refl

analyze_output : itoa 120 ≡ "120"
unfolding itoa
analyze_output = refl

run_total_example :
    (x : Fallible Outcome × SessionState × ℕ) × (run quiet_host two_steps 7 ≡ some x)
run_total_example = run_total quiet_host two_steps 7

run-IsSound_example : IsSound exhausted
run-IsSound_example =
    run-IsSound quiet_host too_small exhausted 7 8 (ok exhausted_outcome) too_small-IsSound exhausts

run_oversized_example :
    (step : Step) × (get_elem? exhausted.steps 0 ≡ some step)
    × (exhausted.attempt_token_allowance < step.token_cost)
run_oversized_example =
    run_oversized quiet_host too_small exhausted 7 8 exhausted_outcome too_small-IsSound refl
      exhausts refl refl

run-Completes_example :
    (x : Fallible Outcome × SessionState × ℕ) × (run quiet_host two_steps 7 ≡ some x)
    × Completes two_steps x.0 x.1
run-Completes_example =
    run-Completes quiet_host two_steps 7 quiet_host-IsQuiet refl (omega arith) (omega arith)

build_steps_cost_example :
    total_cost (build_steps (λ q. q) 12345 8 ("more tests" ∷ [])) ≤ 400 * 8 + 300 * 1
build_steps_cost_example = build_steps_cost (λ q. q) 12345 8 ("more tests" ∷ [])
