-- ===== src/Runner/Terminalize.antt =====
-- internal/runner/runner.go: terminalizeCheckpoint, with Summary of internal/agent/agent.go.
pub mod Laws
use agent_inbox_question.Base.{
  ℕ, ◌+◌, String, ◌<>◌, Time, Duration, not, Option, some, List, [], ◌∷◌, length, ltb,
  if◌then◌else◌, str_eq, ok, err, ◌>>=◌,
}
use agent_inbox_question.Base.Text.{itoa}
use agent_inbox_question.Domain.Status.{AttemptOutcome}
use agent_inbox_question.Store.Table.{one_if}
use agent_inbox_question.Domain.Errors.{Error, Fallible}
use agent_inbox_question.Domain.Completion.{AttemptCompletion, decide_attempt_completion}
use agent_inbox_question.Agent.Plan.{Step, truncate}
use agent_inbox_question.Agent.Session.{SessionState, AttemptCheckpoint, HaltReason}

abbrev pub done_steps : List Step → ℕ
done_steps [] = 0
done_steps (s ∷ ss) = one_if s.done + done_steps ss

-- `strings.Join(parts, sep)`.
abbrev pub join_with : String → List String → String
join_with sep [] = ""
join_with sep (p ∷ []) = p
join_with sep (p ∷ ps) = p <> sep <> join_with sep ps

abbrev pub status_part : SessionState → List String → List String
status_part s rest =
    if s.completed
    then "status: completed" ∷ rest
    else if s.budget_halted
    then "status: budget exhausted" ∷ rest
    else if not (str_eq s.error_message "")
    then "status: errored" ∷ rest
    else rest

abbrev pub feedback_part : String → List String
feedback_part text =
    if not (str_eq text "") then ("feedback addressed: " <> truncate text 60) ∷ [] else []

unfoldable pub summary : SessionState → String
summary s = join_with ", " (
    (itoa (done_steps s.steps) <> "/" <> itoa (length s.steps) <> " steps completed")
    ∷ status_part s (feedback_part (join_with "; " s.feedback)))

pub record AttemptTerminalization : Type 0 where
  pub completion : AttemptCompletion
  pub error_text : String
  pub comment_author : String
  pub comment_body : String

-- What the `switch` on the halt reason sets.
pub record Ending : Type 0 where
  pub outcome : AttemptOutcome
  pub error_text : String
  pub comment_author : String
  pub comment_body : String

abbrev pub plain_ending : AttemptOutcome → String → Ending
plain_ending outcome text = record {
  outcome = outcome;
  error_text = text;
  comment_author = "";
  comment_body = "";
}

unfoldable pub ending : SessionState → AttemptCheckpoint → String → HaltReason → Fallible Ending
ending s c interruption HaltReason.completed = ok (record {
  outcome = AttemptOutcome.completed;
  error_text = "";
  comment_author = "agent";
  comment_body = summary s;
})
ending s c interruption HaltReason.agent_error =
    ok (plain_ending AttemptOutcome.agent_error c.error)
ending s c interruption HaltReason.token_exhausted =
    ok (plain_ending AttemptOutcome.token_exhausted "")
ending s c interruption HaltReason.interrupted =
    ok (plain_ending AttemptOutcome.interrupted interruption)
ending s c interruption HaltReason.running =
    ok (plain_ending AttemptOutcome.interrupted interruption)
ending s c interruption HaltReason.unset = ok (plain_ending AttemptOutcome.interrupted interruption)
ending s c interruption (HaltReason.other r) = err (Error.failure "unknown attempt halt reason")

-- An exhausted attempt is judged at the time of its halt.
abbrev pub policy_time : AttemptOutcome → Option Time → Time → Time
policy_time AttemptOutcome.token_exhausted (some at) finished_at = at
policy_time _ _ finished_at = finished_at

unfoldable pub terminalize_checkpoint :
    SessionState
    → AttemptCheckpoint
    → ℕ
    → Time
    → Duration
    → String
    → Fallible AttemptTerminalization
unfolding ending
terminalize_checkpoint s c start_step finished_at reset_interval interruption = do
  e ← ending s c interruption c.halt_reason
  completion ← decide_attempt_completion (record {
    outcome = e.outcome;
    finished_at = policy_time e.outcome c.halted_at finished_at;
    reset_interval = reset_interval;
    progressed = ltb start_step c.completed_steps;
    window_origin = c.window_origin;
  })
  ok (record {
    completion = completion;
    error_text = e.error_text;
    comment_author = e.comment_author;
    comment_body = e.comment_body;
  })
