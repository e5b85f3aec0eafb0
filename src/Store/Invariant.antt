-- ===== src/Store/Invariant.antt =====
-- What holds of the tables between two calls: ids are given out once, and a task has as many
-- running attempts as it has rows in progress.
pub mod Finish
pub mod Start
pub mod Conflict
pub mod Progress
use agent_inbox_question.Base.{ℕ, suc, ◌≤◌, ◌≡◌, ◌==◌, arith}
use agent_inbox_question.Store.Table.{Below, count_where, count_where_mono, count_key-le-one}
use agent_inbox_question.Store.Database.{Db, Run, TaskRow, runs_for, claims_for}

abbrev pub task_key : TaskRow → ℕ
task_key k = k.id

abbrev pub run_key : Run → ℕ
run_key r = r.id

pub record IsConsistent (db : Db) : Type 0 where
  pub tasks_fresh : Below task_key (suc db.task_seq) db.tasks
  pub runs_fresh : Below run_key (suc db.run_seq) db.runs
  pub owned : (t : ℕ) → count_where (runs_for t) db.runs ≡ count_where (claims_for t) db.tasks

-- In consistent tables a task has one running attempt at most.
pub running-le-one : (db : Db) (t : ℕ) → IsConsistent db → count_where (runs_for t) db.runs ≤ 1
running-le-one db t c = omega (
  arith,
  c.owned t,
  count_where_mono (λ k. task_key k == t) (claims_for t) (λ k h. ground arith) db.tasks,
  count_key-le-one task_key t (suc db.task_seq) db.tasks c.tasks_fresh,
)
