-- ===== src/Cli/Work/Visits.antt =====
-- The tasks that RunWork runs, and what it counts of them.
use agent_inbox_question.Base.{
  ◌+◌, Option, none, some, ok, err, ◌≡◌, not, Bool, false, List, [], ◌∷◌, length,
}
use agent_inbox_question.Domain.Errors.{Fallible}
use agent_inbox_question.Domain.Status.{TaskStatus, AttemptOutcome}
use agent_inbox_question.Store.Table.{count_where}
use agent_inbox_question.Store.Database.{Db}
use agent_inbox_question.Store.Tasks.{Task, get_task, oldest_by_status, is_done}
use agent_inbox_question.Store.System.{Reach}
use agent_inbox_question.Runner.World.{Env, World, pass}
use agent_inbox_question.Runner.Launch.{execute}
use agent_inbox_question.Cli.Work.{Tally, WorkRound, finished, more}

-- A task that a round took: the world in which it was the oldest to do, what Execute left of it, and
-- the world in which it was read back.
pub record Visit : Type 0 where
  pub task : Task
  pub before : World
  pub result : Fallible AttemptOutcome
  pub after : World

-- The task was read back as done.
abbrev pub reads_done : Fallible Task → Bool
reads_done (err e) = false
reads_done (ok t) = is_done t.status

module _ (env : Env) where
  abbrev pub succeeds : Visit → Bool
  succeeds v = let w = pass env v.after in reads_done (get_task (env.fails w.moment) v.task.id w.db)

  abbrev pub fails_to : Visit → Bool
  fails_to v = not (succeeds v)

  -- The code's own choice of the task, and its own run of it.
  pub record IsVisit (v : Visit) : Type 0 where
    pub oldest :
        oldest_by_status (env.fails v.before.moment) TaskStatus.todo v.before.db ≡ ok v.task
    pub executes : execute env v.task.id v.before ≡ some (v.result, v.after)

  -- The visits follow one another from `start` to `end`, by writes of the store.
  abbrev pub Visits : Db → List Visit → Db → Type 0
  Visits start [] end = Reach start end
  Visits start (v ∷ vs) end =
      Reach start v.before.db
      × IsVisit v
      × Reach v.before.db (pass env v.after).db
      × Visits (pass env v.after).db vs end

  -- From `k` to `k'` each visit is counted once, as a success where its task is read back as done.
  pub record IsTallied (k : Tally) (vs : List Visit) (k' : Tally) : Type 0 where
    pub total : k'.total ≡ k.total + length vs
    pub succeeded : k'.succeeded ≡ k.succeeded + count_where succeeds vs
    pub failed : k'.failed ≡ k.failed + count_where fails_to vs

  abbrev pub Counts : Tally → Db → Tally → World → Type 0
  Counts k start k' w = (vs : List Visit) × Visits start vs w.db × IsTallied k vs k'

  -- A round is there, and the tasks that it took are counted.
  abbrev pub Works : Tally → Db → Option WorkRound → Type 0
  Works k start none = ⊥
  Works k start (some (finished r k' w)) = Counts k start k' w
  Works k start (some (more k' w)) = Counts k start k' w
