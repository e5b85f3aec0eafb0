-- ===== src/Cli/Work/Laws.antt =====
-- What RunWork does to the tables, and what it counts.
use agent_inbox_question.Base.{
  ℕ, zero, suc, ◌+◌, Option, none, some, ok, err, ◌≡◌, refl, inl, inr, Bool-cases, arith, is_ok,
  not, ◌&&◌, List, [], ◌∷◌, ◌++◌, length-append,
}
use agent_inbox_question.Domain.Errors.{Fallible, is_not_found}
use agent_inbox_question.Domain.Status.{TaskStatus}
use agent_inbox_question.Store.Table.{count_where, count_where-append}
use agent_inbox_question.Store.Database.{Db}
use agent_inbox_question.Store.Tasks.{Task, get_task, oldest_by_status, is_done}
use agent_inbox_question.Store.System.{Reach, here, Reach-trans}
use agent_inbox_question.Runner.World.{Env, World, pass}
use agent_inbox_question.Runner.Launch.{Launched, execute}
use agent_inbox_question.Runner.Launch.Laws.{Arrives, pass-Reach, execute-Arrives}
use agent_inbox_question.Cli.Work.{
  Tally, no_work, WorkRound, finished, more, counted, printf, after_execute, taken, work_round,
  continued, work_rounds,
}
use agent_inbox_question.Cli.Work.Visits.{
  Visit, succeeds, fails_to, Visits, IsTallied, Counts, Works,
}

module _ (env : Env) (others : (m : ℕ) (db : Db) → Reach db (env.others m db)) where
  none_taken :
      (k k' : Tally) (start : Db) (w : World)
      → k'.total ≡ k.total
      → k'.succeeded ≡ k.succeeded
      → k'.failed ≡ k.failed
      → Reach start w.db
      → Counts env k start k' w
  unfolding count_where
  none_taken k k' start w t s f r = (
    [],
    r,
    record { total = omega (arith, t); succeeded = omega (arith, s); failed = omega (arith, f) },
  )

  counted-IsTallied :
      (k : Tally) (w : World) (v : Visit)
      → let r = pass env v.after in
        IsTallied env k (v ∷ []) (
          printf env r (
            counted
              (get_task (env.fails r.moment) v.task.id r.db)
              (printf env w (record k { total = k.total + 1 }))))
  unfolding count_where
  counted-IsTallied k w v = read (get_task _ v.task.id (pass env v.after).db) refl
    where
      read :
          (x : Fallible Task)
          → get_task (env.fails (pass env v.after).moment) v.task.id (pass env v.after).db ≡ x
          → IsTallied env k (v ∷ []) (
              printf env
                (pass env v.after)
                (counted x (printf env w (record k { total = k.total + 1 }))))
      read (err e) h = record {
        total = omega arith;
        succeeded = rw h (omega arith);
        failed = rw h (omega arith);
      }
      read (ok t) h = elim (Bool-cases (is_done t.status)) [
        | inl d ↦ rw d (record {
          total = omega arith;
          succeeded = rw (h, d) (omega arith);
          failed = rw (h, d) (omega arith);
        })
        | inr d ↦ rw d (record {
          total = omega arith;
          succeeded = rw (h, d) (omega arith);
          failed = rw (h, d) (omega arith);
        })
      ]

  after_execute-Works :
      (k : Tally) (start : Db) (w : World) (task : Task) (x : Launched)
      → oldest_by_status (env.fails w.moment) TaskStatus.todo w.db ≡ ok task
      → execute env task.id w ≡ x
      → Reach start w.db
      → Arrives w.db x
      → Works env k start
          (after_execute env task.id (printf env w (record k { total = k.total + 1 })) x)
  after_execute-Works k start w task none o e r a = absurd a
  after_execute-Works k start w task (some (y, w')) o e r a =
      let v : Visit = record { task = task; before = w; result = y; after = w' } in
      let z = pass env w' in
      let p = pass-Reach env others w.db w' a in
      let t = counted-IsTallied k w v in
      let visits : Visits env start (v ∷ []) z.db =
        (r, record { oldest = o; executes = e }, p, here z.db) in
      elim (Bool-cases (not (is_ok y) && env.done z.moment)) [
        | inl d ↦
            rw d (
              v ∷ [],
              visits,
              record { total = t.total; succeeded = t.succeeded; failed = t.failed },
            )
        | inr d ↦ rw d (v ∷ [], visits, t)
      ]

  taken-Works :
      (k : Tally) (start : Db) (w : World) (t : Fallible Task)
      → oldest_by_status (env.fails w.moment) TaskStatus.todo w.db ≡ t
      → Reach start w.db
      → Works env k start (taken env k w t)
  taken-Works k start w (err e) o r = elim (Bool-cases (is_not_found e)) [
    | inl n ↦ rw n (none_taken k _ start w refl refl refl r)
    | inr n ↦ rw n (none_taken k _ start w refl refl refl r)
  ]
  taken-Works k start w (ok task) o r =
      after_execute-Works k start w task (execute env task.id w) o refl r
        (execute-Arrives env others w.db task.id w (here w.db))

  work_round-Works :
      (k : Tally) (start : Db) (w : World)
      → Reach start w.db
      → Works env k start (work_round env k w)
  unfolding work_round
  work_round-Works k start w r = elim (Bool-cases (env.done w.moment)) [
    | inl d ↦ rw d (none_taken k _ start w refl refl refl r)
    | inr d ↦ rw d (taken-Works k start (pass env w) _ refl (pass-Reach env others start w r))
  ]

  -- One visit after another.
  Visits-append :
      (start mid end : Db) (vs us : List Visit)
      → Visits env start vs mid
      → Visits env mid us end
      → Visits env start (vs ++ us) end
  Visits-append start mid end [] [] r q = Reach-trans r q
  Visits-append start mid end [] (u ∷ us) r q = (Reach-trans r q.0, q.1, q.2, q.3)
  Visits-append start mid end (v ∷ vs) us r q =
      (r.0, r.1, r.2, Visits-append (pass env v.after).db mid end vs us r.3 q)

  IsTallied-append :
      (k k' k'' : Tally) (vs us : List Visit)
      → IsTallied env k vs k'
      → IsTallied env k' us k''
      → IsTallied env k (vs ++ us) k''
  IsTallied-append k k' k'' vs us t u = record {
    total = omega (arith, t.total, u.total, length-append vs us);
    succeeded = omega (arith, t.succeeded, u.succeeded, count_where-append (succeeds env) vs us);
    failed = omega (arith, t.failed, u.failed, count_where-append (fails_to env) vs us);
  }

  Works-append :
      (k k' : Tally) (start mid : Db) (vs : List Visit) (x : Option WorkRound)
      → Visits env start vs mid
      → IsTallied env k vs k'
      → Works env k' mid x
      → Works env k start x
  Works-append k k' start mid vs none v t c = c
  Works-append k k' start mid vs (some (finished y k'' w)) v t (us, u, q) =
      (vs ++ us, Visits-append start mid w.db vs us v u, IsTallied-append k k' k'' vs us t q)
  Works-append k k' start mid vs (some (more k'' w)) v t (us, u, q) =
      (vs ++ us, Visits-append start mid w.db vs us v u, IsTallied-append k k' k'' vs us t q)

  work_rounds-Works : (n : ℕ) (k : Tally) (w : World) → Works env k w.db (work_rounds env n k w)
  unfolding work_rounds
  work_rounds-Works zero k w = none_taken k k w.db w refl refl refl (here w.db)
  work_rounds-Works (suc n) k w =
      onwards (work_round env k w) (work_round-Works k w.db w (here w.db))
        (λ k' w'. work_rounds-Works n k' w')
    where
      onwards :
          (x : Option WorkRound)
          → Works env k w.db x
          → ((k' : Tally) (w' : World) → Works env k' w'.db (work_rounds env n k' w'))
          → Works env k w.db (continued env (work_rounds env n) x)
      onwards none c rest = c
      onwards (some (finished y k' w')) c rest = c
      onwards (some (more k' w')) (vs, v, t) rest =
          Works-append k k' w.db w'.db vs (work_rounds env n k' w') v t (rest k' w')

abbrev pub tally_of : WorkRound → Tally
tally_of (finished r k w) = k
tally_of (more k w) = k

abbrev pub work_world : WorkRound → World
work_world (finished r k w) = w
work_world (more k w) = w

Visits-Reach :
    (env : Env) (start end : Db) (vs : List Visit) → Visits env start vs end → Reach start end
Visits-Reach env start end [] r = r
Visits-Reach env start end (v ∷ vs) r =
    Reach-trans r.0 (Reach-trans r.2 (Visits-Reach env (pass env v.after).db end vs r.3))

pub work_rounds-IsTallied :
    (env : Env)
    → ((m : ℕ) (db : Db) → Reach db (env.others m db))
    → (n : ℕ) (w : World)
    → (x : WorkRound) × (work_rounds env n no_work w ≡ some x)
      × ((vs : List Visit) × Visits env w.db vs (work_world x).db
          × IsTallied env no_work vs (tally_of x))
      × Reach w.db (work_world x).db
work_rounds-IsTallied env others n w =
    come (work_rounds env n no_work w) (work_rounds-Works env others n no_work w)
  where
    come :
        (x : Option WorkRound)
        → Works env no_work w.db x
        → (y : WorkRound) × (x ≡ some y)
          × ((vs : List Visit) × Visits env w.db vs (work_world y).db
              × IsTallied env no_work vs (tally_of y))
          × Reach w.db (work_world y).db
    come none c = absurd c
    come (some (finished r k w')) (vs, v, t) =
        (finished r k w', refl, (vs, v, t), Visits-Reach env w.db w'.db vs v)
    come (some (more k w')) (vs, v, t) =
        (more k w', refl, (vs, v, t), Visits-Reach env w.db w'.db vs v)
