-- ===== src/Agent/Session.antt =====
-- internal/agent/agent.go: the session's state, how it starts, is decoded and is bound to an
-- attempt. A Go `int` that counts tokens or steps is a natural number: the code subtracts only
-- what it has compared first. JSON is the record `Json` of the encoder and the decoder.
pub mod Laws
use agent_inbox_question.Base.{
  ℕ, zero, suc, ◌+◌, ◌-◌, String, ◌<>◌, Time, ℤ, pos, negsuc, Bool, true, false, ◌&&◌, Option, none,
  some, List, [], ◌∷◌, ◌++◌, length, get_elem?, ltb, ◌==◌, if◌then◌else◌, str_eq, ok, err,
}
use agent_inbox_question.Base.Text.{itoa}
use agent_inbox_question.Domain.Status.{ProviderWindowOrigin}
use agent_inbox_question.Domain.Errors.{Error, Fallible}
use agent_inbox_question.Domain.Completion.{known_origin}
use agent_inbox_question.Agent.Plan.{Step, parse_directives, hash_input, bounded_hash, build_steps}

pub data HaltReason : Type 0 where
  unset running completed agent_error token_exhausted interrupted : HaltReason
  other : String → HaltReason

pub record AttemptCheckpoint : Type 0 where
  pub run_id : ℕ
  pub owner_token : String
  pub start_step : ℕ
  pub completed_steps : ℕ
  pub tokens_used : ℕ
  pub tokens_remaining : ℕ
  pub window_origin : ProviderWindowOrigin
  pub halted_at : Option Time
  pub halt_reason : HaltReason
  pub error : String
  pub output : String

pub record SessionState : Type 0 where
  pub id : String
  pub task_title : String
  pub task_desc : String
  pub feedback : List String
  pub steps : List Step
  pub budget_model_version : ℕ
  pub configured_token_budget : ℕ
  pub attempt_token_allowance : ℕ
  pub attempt_window_origin : ProviderWindowOrigin
  pub tokens_remaining : ℕ
  pub tokens_used : ℕ
  pub next_step : ℕ
  pub completed : Bool
  pub errored_at : ℕ
  pub error_message : String
  pub budget_halted : Bool
  pub legacy_token_budget : ℕ
  pub attempt_run_id : ℕ
  pub attempt_owner_token : String
  pub attempt_start_step : ℕ
  pub attempt_halt_reason : HaltReason
  pub attempt_halted_at : Option Time

-- `json.Marshal` and `json.Unmarshal` at the type of the state.
pub record Json : Type 0 where
  pub marshal : SessionState → String
  pub unmarshal : String → Option SessionState

abbrev pub default_token_budget : ℕ
default_token_budget = 3500

abbrev pub or_default : Option ℕ → ℕ → ℕ
or_default none d = d
or_default (some v) d = v

-- The state that Start persists; `id` is the random id, `quote` is `%q`.
unfoldable pub initial_state :
    (String → String) → String → String → String → List String → SessionState
initial_state quote id title description feedback =
    let directives = parse_directives description in
    let h = hash_input title description in
    let count = or_default directives.steps (bounded_hash h 0 4 8) in
    let budget = or_default directives.budget default_token_budget in
    record {
      id = id;
      task_title = title;
      task_desc = description;
      feedback = feedback;
      steps = build_steps quote h count feedback;
      budget_model_version = 3;
      configured_token_budget = budget;
      attempt_token_allowance = budget;
      attempt_window_origin = ProviderWindowOrigin.fresh;
      tokens_remaining = budget;
      tokens_used = 0;
      next_step = 0;
      completed = false;
      errored_at = or_default directives.fail_at 0;
      error_message = "";
      budget_halted = false;
      legacy_token_budget = 0;
      attempt_run_id = 0;
      attempt_owner_token = "";
      attempt_start_step = 0;
      attempt_halt_reason = HaltReason.unset;
      attempt_halted_at = none;
    }

-- The two upgrades of decodeState.
unfoldable pub upgrade_to_2 : SessionState → SessionState
upgrade_to_2 s =
    if ltb s.budget_model_version 2
    then record s {
      budget_model_version = 2;
      configured_token_budget =
          if s.configured_token_budget == 0
          then s.legacy_token_budget
          else s.configured_token_budget;
      attempt_token_allowance = s.legacy_token_budget;
      tokens_remaining =
          if s.tokens_remaining == 0 && ltb 0 s.legacy_token_budget
          then s.legacy_token_budget - s.tokens_used
          else s.tokens_remaining;
      legacy_token_budget = 0;
    }
    else s

unfoldable pub upgrade_to_3 : SessionState → SessionState
upgrade_to_3 s =
    if ltb s.budget_model_version 3
    then record s { budget_model_version = 3; attempt_window_origin = ProviderWindowOrigin.unknown }
    else s

abbrev pub decoded : Option SessionState → Fallible SessionState
decoded none = err (Error.failure "parse session checkpoint")
decoded (some s) = ok (upgrade_to_3 (upgrade_to_2 s))

-- decodeState, and Restore, which builds a session of what it decodes.
unfoldable pub restore : Json → String → Fallible SessionState
unfolding upgrade_to_2 upgrade_to_3
restore json checkpoint = decoded (json.unmarshal checkpoint)

unfoldable pub begin_attempt : ℤ → ProviderWindowOrigin → SessionState → Fallible SessionState
begin_attempt (negsuc n) origin s = err (Error.failure "attempt allowance must be non-negative")
begin_attempt (pos allowance) origin s =
    if known_origin origin
    then ok (record s {
      attempt_token_allowance = allowance;
      attempt_window_origin = origin;
      tokens_remaining = allowance;
      tokens_used = 0;
      budget_halted = false;
    })
    else err (Error.failure "unknown provider window origin")

unfoldable pub continue_attempt : SessionState → SessionState
continue_attempt s = record s {
  attempt_token_allowance = s.tokens_remaining;
  attempt_window_origin = ProviderWindowOrigin.continued;
  tokens_used = 0;
  budget_halted = false;
}

-- What BindAttempt sets before it persists the state.
unfoldable pub bind_attempt : ℕ → String → SessionState → SessionState
bind_attempt run_id owner s = record s {
  attempt_run_id = run_id;
  attempt_owner_token = owner;
  attempt_start_step = s.next_step;
  attempt_halt_reason = HaltReason.running;
  attempt_halted_at = none;
  error_message = "";
}

-- The outputs of the steps from `i` on, `count` of them; reading past the end is a panic.
unfoldable pub outputs : List Step → ℕ → ℕ → Option (List String)
outputs steps i zero = some []
outputs steps i (suc count) = elim (get_elem? steps i) [
  | none ↦ none
  | some s ↦ elim (outputs steps (suc i) count) [
    | none ↦ none
    | some lines ↦ some (if str_eq s.output "" then lines else s.output ∷ lines)
  ]
]

-- `strings.Join(lines, "\n")`.
abbrev pub join : List String → String
join [] = ""
join (l ∷ []) = l
join (l ∷ ls) = l <> "\n" <> join ls

unfoldable pub summary_line : SessionState → String
summary_line s = "completed all " <> itoa (length s.steps) <> " steps for: " <> s.task_title

abbrev pub is_completed : HaltReason → Bool
is_completed HaltReason.completed = true
is_completed _ = false

abbrev pub last_line : SessionState → List String
last_line s = if is_completed s.attempt_halt_reason then summary_line s ∷ [] else []

checkpoint_of : SessionState → Option (List String) → Fallible AttemptCheckpoint
checkpoint_of s none = err Error.panic
checkpoint_of s (some lines) = ok (record {
  run_id = s.attempt_run_id;
  owner_token = s.attempt_owner_token;
  start_step = s.attempt_start_step;
  completed_steps = s.next_step;
  tokens_used = s.tokens_used;
  tokens_remaining = s.tokens_remaining;
  window_origin = s.attempt_window_origin;
  halted_at = s.attempt_halted_at;
  halt_reason = s.attempt_halt_reason;
  error = s.error_message;
  output = join (lines ++ last_line s);
})

-- A negative capacity for `make`, that is a start two steps or more ahead, is a panic too.
unfoldable pub attempt_checkpoint : SessionState → Fallible AttemptCheckpoint
unfolding checkpoint_of
attempt_checkpoint s =
    if ltb (s.next_step + 1) s.attempt_start_step
    then err Error.panic
    else checkpoint_of s (outputs s.steps s.attempt_start_step (s.next_step - s.attempt_start_step))
