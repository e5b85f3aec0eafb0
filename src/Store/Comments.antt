-- ===== src/Store/Comments.antt =====
-- internal/store/comment_repo.go.
use agent_inbox_question.Base.{
  ℕ, suc, String, Time, Bool, List, ◌∷◌, if◌then◌else◌, ◌==◌, leb, ok, err,
}
use agent_inbox_question.Domain.Errors.{Fallible}
use agent_inbox_question.Store.Order.{order_by}
use agent_inbox_question.Store.Database.{Comment, Db, Faults, SqlCall, sql_failure}
use agent_inbox_question.Store.Selection.{rows_of}
use agent_inbox_question.Store.Tasks.{whole_seconds, kept}

abbrev pub by_comment_id : Comment → Comment → Bool
by_comment_id c d = leb c.id d.id

abbrev pub comment_row : ℕ → String → String → Time → ℕ → Comment
comment_row t author body at id = record {
  id = id;
  task_id = t;
  author = author;
  body = body;
  created_at = at;
}

unfoldable pub create_comment : Faults → Time → ℕ → String → String → Db → Db × Fallible Comment
create_comment fails now t author body db =
    let db' = record db {
      comments = comment_row t author body (whole_seconds now) (suc db.comment_seq) ∷ db.comments;
      comment_seq = suc db.comment_seq;
    } in
    if fails SqlCall.insert
    then (db, err sql_failure)
    else if fails SqlCall.last_id
    then (db', err sql_failure)
    else (db', ok (comment_row t author body now (suc db.comment_seq)))

unfoldable pub list_comments : Faults → ℕ → Db → Fallible (List Comment)
list_comments fails t db =
    if fails SqlCall.conflict_query
    then err sql_failure
    else ok (order_by by_comment_id (rows_of (kept (λ c. c.task_id == t)) db.comments))
