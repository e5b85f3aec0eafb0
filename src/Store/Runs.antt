-- ===== src/Store/Runs.antt =====
-- internal/store/run_repo.go: the queries of runs.
use agent_inbox_question.Base.{ℕ, Bool, List, if◌then◌else◌, leb, ok, err}
use agent_inbox_question.Domain.Errors.{Fallible}
use agent_inbox_question.Store.Table.{count_where}
use agent_inbox_question.Store.Order.{order_by}
use agent_inbox_question.Store.Database.{Run, Db, Faults, SqlCall, sql_failure, latest_run, runs_of}
use agent_inbox_question.Store.Selection.{rows_of, scan_row}
use agent_inbox_question.Store.Tasks.{kept}

abbrev pub by_run_id : Run → Run → Bool
by_run_id r q = leb r.id q.id

unfoldable pub list_runs : Faults → ℕ → Db → Fallible (List Run)
list_runs fails t db =
    if fails SqlCall.conflict_query
    then err sql_failure
    else ok (order_by by_run_id (rows_of (kept (runs_of t)) db.runs))

unfoldable pub latest_by_task : Faults → ℕ → Db → Fallible Run
latest_by_task fails t db = scan_row fails (latest_run t db.runs)

unfoldable pub count_by_task : Faults → ℕ → Db → Fallible ℕ
count_by_task fails t db =
    if fails SqlCall.conflict_query then err sql_failure else ok (count_where (runs_of t) db.runs)
