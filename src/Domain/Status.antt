-- ===== src/Domain/Status.antt =====
-- internal/domain/types.go: the named strings. A Go string type admits any text; a text that is
-- none of the named constants is `other`, and a conversion such as `TaskStatus(s)` is a function
-- `…_of`.
use agent_inbox_question.Base.{String, Bool, true, false, str_eq, if◌then◌else◌}

pub data TaskStatus : Type 0 where
  todo in_progress failed done : TaskStatus
  other : String → TaskStatus

pub data RunStatus : Type 0 where
  running succeeded errored token_exhausted interrupted : RunStatus
  other : String → RunStatus

pub data ExitReason : Type 0 where
  none completed agent_error token_budget_exhausted interrupted : ExitReason
  other : String → ExitReason

pub data AttemptOutcome : Type 0 where
  completed agent_error token_exhausted interrupted : AttemptOutcome
  other : String → AttemptOutcome

pub data ProviderWindowOrigin : Type 0 where
  unknown fresh continued : ProviderWindowOrigin
  other : String → ProviderWindowOrigin

pub data ContinuationKind : Type 0 where
  none scheduled stopped : ContinuationKind
  other : String → ContinuationKind

unfoldable pub task_status_text : TaskStatus → String
task_status_text TaskStatus.todo = "todo"
task_status_text TaskStatus.in_progress = "in_progress"
task_status_text TaskStatus.failed = "failed"
task_status_text TaskStatus.done = "done"
task_status_text (TaskStatus.other s) = s

-- `TaskStatus(s)`.
unfoldable pub task_status_of : String → TaskStatus
task_status_of s =
    if str_eq s "todo"
    then TaskStatus.todo
    else if str_eq s "in_progress"
    then TaskStatus.in_progress
    else if str_eq s "failed"
    then TaskStatus.failed
    else if str_eq s "done"
    then TaskStatus.done
    else TaskStatus.other s

unfoldable pub run_status_text : RunStatus → String
run_status_text RunStatus.running = "running"
run_status_text RunStatus.succeeded = "succeeded"
run_status_text RunStatus.errored = "errored"
run_status_text RunStatus.token_exhausted = "token_exhausted"
run_status_text RunStatus.interrupted = "interrupted"
run_status_text (RunStatus.other s) = s

unfoldable pub exit_reason_text : ExitReason → String
exit_reason_text ExitReason.none = ""
exit_reason_text ExitReason.completed = "completed"
exit_reason_text ExitReason.agent_error = "agent_error"
exit_reason_text ExitReason.token_budget_exhausted = "token_budget_exhausted"
exit_reason_text ExitReason.interrupted = "interrupted"
exit_reason_text (ExitReason.other s) = s

-- `==` on the values of each type.
abbrev pub same_task_status : TaskStatus → TaskStatus → Bool
same_task_status TaskStatus.todo TaskStatus.todo = true
same_task_status TaskStatus.in_progress TaskStatus.in_progress = true
same_task_status TaskStatus.failed TaskStatus.failed = true
same_task_status TaskStatus.done TaskStatus.done = true
same_task_status (TaskStatus.other a) (TaskStatus.other b) = str_eq a b
same_task_status _ _ = false

abbrev pub same_exit_reason : ExitReason → ExitReason → Bool
same_exit_reason ExitReason.none ExitReason.none = true
same_exit_reason ExitReason.completed ExitReason.completed = true
same_exit_reason ExitReason.agent_error ExitReason.agent_error = true
same_exit_reason ExitReason.token_budget_exhausted ExitReason.token_budget_exhausted = true
same_exit_reason ExitReason.interrupted ExitReason.interrupted = true
same_exit_reason (ExitReason.other a) (ExitReason.other b) = str_eq a b
same_exit_reason _ _ = false

abbrev pub is_running : RunStatus → Bool
is_running RunStatus.running = true
is_running _ = false

abbrev pub is_scheduled : ContinuationKind → Bool
is_scheduled ContinuationKind.scheduled = true
is_scheduled _ = false

abbrev pub is_stopped : ContinuationKind → Bool
is_stopped ContinuationKind.stopped = true
is_stopped _ = false

abbrev pub is_no_continuation : ContinuationKind → Bool
is_no_continuation ContinuationKind.none = true
is_no_continuation _ = false
