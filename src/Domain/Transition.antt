-- ===== src/Domain/Transition.antt =====
-- internal/domain/types.go: allowedTransitions, Transition and ParseTaskStatus.
pub mod Laws
use agent_inbox_question.Base.{String, Bool, true, false, if◌then◌else◌, ok, err}
use agent_inbox_question.Domain.Status.{TaskStatus, task_status_of}
use agent_inbox_question.Domain.Errors.{Error, Fallible}

-- The table `allowedTransitions`.
abbrev pub allowed_transition : TaskStatus → TaskStatus → Bool
allowed_transition TaskStatus.todo TaskStatus.in_progress = true
allowed_transition TaskStatus.in_progress TaskStatus.done = true
allowed_transition TaskStatus.in_progress TaskStatus.failed = true
allowed_transition TaskStatus.failed TaskStatus.in_progress = true
allowed_transition _ _ = false

unfoldable pub transition : TaskStatus → TaskStatus → Fallible (Unit {0})
transition from to = if allowed_transition from to then ok tt else err Error.invalid_transition

known_status : TaskStatus → Fallible TaskStatus
known_status (TaskStatus.other s) = err (Error.failure "unknown task status")
known_status status = ok status

unfoldable pub parse_task_status : String → Fallible TaskStatus
unfolding known_status task_status_of
parse_task_status s = known_status (task_status_of s)
