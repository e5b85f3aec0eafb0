-- ===== src/Store/Candidate.antt =====
-- internal/store/attempt_repo.go: GetResumeCandidate.
use agent_inbox_question.Base.{
  ℕ, String, Option, none, some, List, [], ◌∷◌, ◌==◌, if◌then◌else◌, ok, err, ◌>>=◌,
}
use agent_inbox_question.Domain.Status.{TaskStatus, ExitReason, is_running}
use agent_inbox_question.Domain.Errors.{Error, Fallible}
use agent_inbox_question.Domain.Continuation.{ContinuationDecision, parse_continuation}
use agent_inbox_question.Store.Table.{find_where}
use agent_inbox_question.Store.Database.{
  TaskRow, Run, Db, Faults, SqlCall, sql_failure, latest_run, id_or_zero,
}

pub record ResumeCandidate : Type 0 where
  pub task_status : TaskStatus
  pub run_id : ℕ
  pub session_id : String
  pub exit_reason : ExitReason
  pub continuation : ContinuationDecision
  pub session_checkpoint : String

-- `WHERE status <> 'running'`.
unfoldable pub terminal_runs : List Run → List Run
terminal_runs [] = []
terminal_runs (r ∷ rs) = if is_running r.status then terminal_runs rs else r ∷ terminal_runs rs

abbrev pub session_of : Option Run → String
session_of none = ""
session_of (some r) = r.session_id

abbrev pub exit_of : Option Run → ExitReason
exit_of none = ExitReason.none
exit_of (some r) = r.exit_reason

abbrev pub checkpoint_of_run : Option Run → String
checkpoint_of_run none = ""
checkpoint_of_run (some r) = r.session_checkpoint

-- The columns of the join, scanned.
unfoldable pub candidate_of : TaskRow → Option Run → Fallible ResumeCandidate
candidate_of k run = do
  continuation ← parse_continuation k.auto_retry_state k.next_eligible_at k.auto_retry_reason
  ok (record {
    task_status = k.status;
    run_id = id_or_zero run;
    session_id = session_of run;
    exit_reason = exit_of run;
    continuation = continuation;
    session_checkpoint = checkpoint_of_run run;
  })

abbrev pub candidate_row : Db → Option TaskRow → Fallible ResumeCandidate
candidate_row db none = err Error.not_found
candidate_row db (some k) = candidate_of k (latest_run k.id (terminal_runs db.runs))

unfoldable pub get_resume_candidate : Faults → ℕ → Db → Fallible ResumeCandidate
unfolding candidate_of
get_resume_candidate fails t db =
    if fails SqlCall.conflict_query
    then err sql_failure
    else candidate_row db (find_where (λ k. k.id == t) db.tasks)
