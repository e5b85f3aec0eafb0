-- ===== src/Domain/Transition/Laws.antt =====
-- Transitions to terminal states, and the parser of statuses.
use agent_inbox_question.Base.{String, ◌≡◌, ok, arith, eq_iff}
use agent_inbox_question.Domain.Status.{TaskStatus, AttemptOutcome, task_status_text}
use agent_inbox_question.Domain.Completion.{TerminalAttemptState, terminal_state}
use agent_inbox_question.Domain.Transition.{transition, parse_task_status}

-- A text that parses as a task status is the text of that status.
pub text-parse_task_status :
    (s : String) {t : TaskStatus} → parse_task_status s ≡ ok t → task_status_text t ≡ s
unfolding parse_task_status task_status_text
text-parse_task_status s h =
    ground (arith, eq_iff s "todo", eq_iff s "in_progress", eq_iff s "failed", eq_iff s "done")

-- From in_progress a task may move to the status of each outcome that has a terminal state.
pub transition-terminal_state :
    (o : AttemptOutcome) {st : TerminalAttemptState}
    → terminal_state o ≡ ok st
    → transition TaskStatus.in_progress st.task_status ≡ ok tt
unfolding terminal_state transition
transition-terminal_state o h = ground arith
