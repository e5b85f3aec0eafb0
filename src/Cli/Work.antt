-- ===== src/Cli/Work.antt =====
-- internal/cli/work.go: RunWork, a round of its loop at a time, with the printer of
-- internal/cli/helpers.go. What is printed is left out; that a print fails is not.
pub mod Visits
pub mod Laws
use agent_inbox_question.Base.{
  ℕ, zero, suc, ◌+◌, Bool, false, ◌&&◌, ◌||◌, not, Option, none, some, if◌then◌else◌, ok, err,
  is_ok,
}
use agent_inbox_question.Domain.Status.{TaskStatus, AttemptOutcome}
use agent_inbox_question.Domain.Errors.{Error, Fallible, is_not_found}
use agent_inbox_question.Store.Tasks.{Task, get_task, oldest_by_status, is_done}
use agent_inbox_question.Runner.World.{Env, World, pass}
use agent_inbox_question.Runner.Launch.{Launched, execute}

-- `total`, `succeeded` and `failed`, and whether the printer has an error.
pub record Tally : Type 0 where
  pub total : ℕ
  pub succeeded : ℕ
  pub failed : ℕ
  pub print_failed : Bool

abbrev pub no_work : Tally
no_work = record { total = 0; succeeded = 0; failed = 0; print_failed = false }

-- A round ends the loop or asks for another.
pub data WorkRound : Type 0 where
  finished : Fallible (Unit {0}) → Tally → World → WorkRound
  more : Tally → World → WorkRound

abbrev pub counted : Fallible Task → Tally → Tally
counted (err e) k = record k { failed = k.failed + 1 }
counted (ok t) k =
    if is_done t.status
    then record k { succeeded = k.succeeded + 1 }
    else record k { failed = k.failed + 1 }

module _ (env : Env) where
  -- outputPrinter.Printf: nothing is written once a write has failed.
  abbrev pub printf : World → Tally → Tally
  printf w k = record k { print_failed = k.print_failed || not (env.prints w.moment) }

  -- outputPrinter.Err.
  abbrev pub print_error : Tally → Fallible (Unit {0})
  print_error k = if k.print_failed then err (Error.failure "write output") else ok tt

  -- The summary.
  abbrev pub end_work : Tally → World → WorkRound
  end_work k w = finished (print_error (printf w k)) (printf w k) w

  -- The task is read back, whatever Execute said; its error ends the loop where the context is over.
  abbrev pub executed : ℕ → Tally → Fallible AttemptOutcome × World → WorkRound
  executed task_id k (r, w) =
      let w' = pass env w in
      let k' = printf w' (counted (get_task (env.fails w'.moment) task_id w'.db) k) in
      if not (is_ok r) && env.done w'.moment then end_work k' w' else more k' w'

  abbrev pub after_execute : ℕ → Tally → Launched → Option WorkRound
  after_execute task_id k none = none
  after_execute task_id k (some x) = some (executed task_id k x)

  abbrev pub taken : Tally → World → Fallible Task → Option WorkRound
  taken k w (err e) = some (if is_not_found e then end_work k w else finished (err e) k w)
  taken k w (ok task) =
      after_execute task.id (printf w (record k { total = k.total + 1 })) (execute env task.id w)

  unfoldable pub work_round : Tally → World → Option WorkRound
  unfolding pass
  work_round k w =
      let w' = pass env w in
      let next = taken k w' (oldest_by_status (env.fails w'.moment) TaskStatus.todo w'.db) in
      if env.done w.moment then some (end_work k w) else next

  -- The first rounds of the loop, as many as are asked for and no more than it has.
  abbrev pub continued : (Tally → World → Option WorkRound) → Option WorkRound → Option WorkRound
  continued rest none = none
  continued rest (some (finished r k w)) = some (finished r k w)
  continued rest (some (more k w)) = rest k w

  unfoldable pub work_rounds : ℕ → Tally → World → Option WorkRound
  unfolding work_round
  work_rounds zero k w = some (more k w)
  work_rounds (suc n) k w = continued (work_rounds n) (work_round k w)
