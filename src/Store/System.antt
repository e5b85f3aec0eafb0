-- ===== src/Store/System.antt =====
-- internal/store: all the writes that processes make, in any order, as steps between committed
-- tables.
pub mod Final
pub mod Known
use agent_inbox_question.Base.{ℕ, ◌≤◌, String, Time, Duration, Option, ◌≡◌, refl, subst, []}
use agent_inbox_question.Store.Table.{count_where}
use agent_inbox_question.Store.Database.{Db, SqlDates, Faults, runs_for, claims_for}
use agent_inbox_question.Store.Progress.{AttemptProgress, update_progress, renew_lease}
use agent_inbox_question.Store.Finish.{FinishAuthorization, FinishAttemptParams, finish_with}
use agent_inbox_question.Store.Start.{StartAuthorization, StartAttemptParams, start_authorized}
use agent_inbox_question.Store.Tasks.{create_task}
use agent_inbox_question.Store.Comments.{create_comment}
use agent_inbox_question.Store.Tasks.Laws.{create_task-IsConsistent, create_comment-IsConsistent}
use agent_inbox_question.Store.Continuations.{initialize_unscheduled}
use agent_inbox_question.Store.Continuations.Laws.{initialize_unscheduled-IsConsistent}
use agent_inbox_question.Store.Invariant.{IsConsistent, running-le-one}
use agent_inbox_question.Store.Invariant.Progress.{
  update_progress-IsConsistent, renew_lease-IsConsistent,
}
use agent_inbox_question.Store.Invariant.Finish.{finish_with-IsConsistent}
use agent_inbox_question.Store.Invariant.Start.{start_authorized-IsConsistent}

-- One write by some process, which succeeds or fails.
pub data Step : Db → Db → Type 0 where
  creating :
      (fails : Faults) (now : Time) (title description : String) (db db' : Db)
      → (create_task fails now title description db).0 ≡ db'
      → Step db db'
  commenting :
      (fails : Faults) (now : Time) (t : ℕ) (author body : String) (db db' : Db)
      → (create_comment fails now t author body db).0 ≡ db'
      → Step db db'
  starting :
      (dates : SqlDates) (fails : Faults) (clock : Time) (token : Option String)
      (authorization : StartAuthorization) (params : StartAttemptParams) (db db' : Db)
      → (start_authorized dates fails clock token authorization params db).0.committed ≡ db'
      → Step db db'
  publishing :
      (dates : SqlDates) (now : Time) (fails : Faults) (progress : AttemptProgress) (db db' : Db)
      → (update_progress dates now fails progress db).0 ≡ db'
      → Step db db'
  renewing :
      (dates : SqlDates) (now : Time) (fails : Faults) (id : ℕ) (owner : String)
      (duration : Duration) (db db' : Db)
      → (renew_lease dates now fails id owner duration db).0 ≡ db'
      → Step db db'
  finishing :
      (fails : Faults) (authorize : FinishAuthorization) (clock : Time)
      (params : FinishAttemptParams) (db db' : Db)
      → (finish_with fails authorize clock params db).0.committed ≡ db'
      → Step db db'
  initializing :
      (fails : Faults) (reset : Duration) (db db' : Db)
      → (initialize_unscheduled fails reset db).0 ≡ db'
      → Step db db'

-- Any number of writes.
pub data Reach : Db → Db → Type 0 where
  here : (db : Db) → Reach db db
  later : {db db' db'' : Db} → Reach db db' → Step db' db'' → Reach db db''

pub Reach-trans : {db db' db'' : Db} → Reach db db' → Reach db' db'' → Reach db db''
Reach-trans r (here db) = r
Reach-trans r (later q s) = later (Reach-trans r q) s

Step-IsConsistent : {db db' : Db} → Step db db' → IsConsistent db → IsConsistent db'
Step-IsConsistent (creating fails now title description db db' e) c =
    subst IsConsistent e (create_task-IsConsistent fails now title description db c)
Step-IsConsistent (commenting fails now t author body db db' e) c =
    subst IsConsistent e (create_comment-IsConsistent fails now t author body db c)
Step-IsConsistent (starting dates fails clock token authorization params db db' e) c =
    subst IsConsistent e
      (start_authorized-IsConsistent dates fails clock token authorization params db c)
Step-IsConsistent (publishing dates now fails progress db db' e) c =
    subst IsConsistent e (update_progress-IsConsistent dates now fails db c progress)
Step-IsConsistent (renewing dates now fails id owner duration db db' e) c =
    subst IsConsistent e (renew_lease-IsConsistent dates now fails db c id owner duration)
Step-IsConsistent (finishing fails authorize clock params db db' e) c =
    subst IsConsistent e (finish_with-IsConsistent fails authorize clock params db c)
Step-IsConsistent (initializing fails reset db db' e) c =
    subst IsConsistent e (initialize_unscheduled-IsConsistent fails reset db c)

pub Reach-IsConsistent : {db db' : Db} → Reach db db' → IsConsistent db → IsConsistent db'
Reach-IsConsistent (here db) c = c
Reach-IsConsistent (later r s) c = Step-IsConsistent s (Reach-IsConsistent r c)

abbrev pub empty_db : Db
empty_db = record {
  tasks = [];
  runs = [];
  comments = [];
  task_seq = 0;
  run_seq = 0;
  comment_seq = 0;
}

pub empty_db-IsConsistent : IsConsistent empty_db
unfolding count_where
empty_db-IsConsistent = record { tasks_fresh = tt; runs_fresh = tt; owned = λ t. refl }

-- From empty tables, whatever writes of Step any processes make in any order, a task has one
-- running attempt at most, and it has one exactly as often as it is in progress.
pub one_attempt :
    (db : Db)
    → Reach empty_db db
    → (t : ℕ)
    → (count_where (runs_for t) db.runs ≤ 1)
      × (count_where (runs_for t) db.runs ≡ count_where (claims_for t) db.tasks)
one_attempt db r t =
    let c = Reach-IsConsistent r empty_db-IsConsistent in (running-le-one db t c, c.owned t)
