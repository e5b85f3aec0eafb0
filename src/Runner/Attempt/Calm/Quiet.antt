-- ===== src/Runner/Attempt/Calm/Quiet.antt =====
-- The lease is renewed in front of each operation of the attempt, so that its host is quiet.
use agent_inbox_question.Base.{
  ℕ, ◌+◌, ◌≡◌, refl, ◌∙◌, Bool, false, ◌||◌, ◌++◌, is_some, ok, err, arith,
}
use agent_inbox_question.Domain.Errors.{Fallible}
use agent_inbox_question.Agent.Commit.{StateCommit}
use agent_inbox_question.Agent.Run.Quiet.{IsQuietWhile}
use agent_inbox_question.Store.Database.{Db, Run}
use agent_inbox_question.Runner.World.{Env, pass, put_db}
use agent_inbox_question.Runner.Attempt.{
  Attempt, after_renewal, renew_now, lease_tick, interlude, look, fence, published, sink,
  attempt_host, progress_of, event_lines,
}
use agent_inbox_question.Runner.Attempt.Calm.{
  IsCalm, IsOwned, others-Owned, renewal_calm, progress_calm, at_moment,
}

module _ (env : Env) (run : Run) (task_id : ℕ) (calm : IsCalm env run task_id) where
  -- An attempt that holds its lease now and in front of its next operation, with no error so far.
  pub record IsCalmAttempt (a : Attempt) : Type 0 where
    pub renewed_so_far : is_some a.renewal_error ≡ false
    pub printed_so_far : a.output_failed ≡ false
    pub now : IsOwned env run task_id a.world.db a.world.moment
    pub next : IsOwned env run task_id a.world.db (a.world.moment + 1)

  after_renewal_calm :
      (a : Attempt) (x : Db × Fallible (Unit {0}))
      → x.1 ≡ ok tt
      → after_renewal a x ≡ record a { world = put_db a.world x.0 }
  after_renewal_calm a (db, ok u) e = refl
  after_renewal_calm a (db, err y) e = cc

  lease_tick_calm :
      (a : Attempt)
      → is_some a.renewal_error ≡ false
      → IsOwned env run task_id a.world.db a.world.moment
      → lease_tick env run a ≡ record a { world = put_db a.world (renew_now env run a.world).0 }
  unfolding lease_tick renew_now
  lease_tick_calm a e v =
      rw (calm.ticks a.world.moment, e)
        (after_renewal_calm a _ (renewal_calm env run task_id calm a.world.db a.world.moment v).0)

  pub interlude_calm :
      (a : Attempt)
      → IsCalmAttempt a
      → IsCalmAttempt (interlude env run a) × ((interlude env run a).canceled ≡ a.canceled)
  unfolding interlude pass renew_now
  interlude_calm a v =
      let m = a.world.moment in
      let db = env.others m a.world.db in
      let first = others-Owned env run task_id calm m a.world.db (m + 1) v.next in
      let (e, later) = renewal_calm env run task_id calm db (m + 1) first in
      rw (lease_tick_calm (record a { world = pass env a.world }) v.renewed_so_far first) (
        record {
          renewed_so_far = v.renewed_so_far;
          printed_so_far = v.printed_so_far;
          now = others-Owned env run task_id calm (m + 1) _ _ (later 1 (omega arith));
          next =
              others-Owned env run task_id calm (m + 1) _ _
                (at_moment env run task_id calm _ _ _ (omega arith) (later 2 (omega arith)));
        },
        refl,
      )

  fence_calm :
      (a : Attempt)
      → IsCalmAttempt a
      → ((fence env run a).0 ≡ ok tt)
        × IsCalmAttempt (fence env run a).1
        × ((fence env run a).1.canceled ≡ a.canceled)
  unfolding fence renew_now
  fence_calm a v =
      let (u, c) = interlude_calm a v in
      let b = interlude env run a in
      let (e, later) = renewal_calm env run task_id calm b.world.db b.world.moment u.now in
      (
        e,
        record {
          renewed_so_far = u.renewed_so_far;
          printed_so_far = u.printed_so_far;
          now = at_moment env run task_id calm _ _ _ (omega arith) (later 0 (omega arith));
          next = later 1 (omega arith);
        },
        c,
      )

  published_calm :
      (change : StateCommit) (a : Attempt) (x : Db × Fallible (Unit {0}))
      → IsCalmAttempt a
      → x.1 ≡ ok tt
      → IsOwned env run task_id x.0 a.world.moment
      → IsOwned env run task_id x.0 (a.world.moment + 1)
      → ((published env run change a x).0 ≡ ok tt)
        × IsCalmAttempt (published env run change a x).1
        × ((published env run change a x).1.canceled ≡ a.canceled)
  published_calm change a (db, err y) v e n k = cc
  published_calm change a (db, ok u) v e n k = (
    refl,
    record {
      renewed_so_far = v.renewed_so_far;
      printed_so_far = ground (arith, v.printed_so_far, calm.printed a.world.moment);
      now = n;
      next = k;
    },
    refl,
  )

  sink_calm :
      (change : StateCommit) (a : Attempt)
      → IsCalmAttempt a
      → ((sink env run change a).0 ≡ ok tt)
        × IsCalmAttempt (sink env run change a).1
        × ((sink env run change a).1.canceled ≡ a.canceled)
  unfolding sink
  sink_calm change a v =
      let (u, c) = interlude_calm a v in
      let b = interlude env run a in
      let (e, kept) =
        progress_calm env run task_id calm b.world.db b.world.moment
          (progress_of env run change (b.lines ++ event_lines env run change.event)) refl refl
          u.now in
      let (f, w, d) = published_calm change b _ u e (kept _ u.now) (kept _ u.next) in (f, w, d ∙ c)

  -- Not canceled, besides.
  pub record IsUndisturbed (a : Attempt) : Type 0 where
    pub attempt : IsCalmAttempt a
    pub alive : a.canceled ≡ false

  onwards-IsUndisturbed :
      (a b : Attempt)
      → IsUndisturbed a
      → IsCalmAttempt b × (b.canceled ≡ a.canceled)
      → IsUndisturbed b
  onwards-IsUndisturbed a b v (u, e) = record { attempt = u; alive = e ∙ v.alive }

  neither : (b c : Bool) → b ≡ false → c ≡ false → (b || c) ≡ false
  neither b c e f = ground (arith, e, f)

  look_calm : (a : Attempt) → IsUndisturbed a → (look env run a).0 ≡ false
  unfolding look
  look_calm a v =
      let (u, c) = interlude_calm a v.attempt in
      neither (interlude env run a).canceled _ (c ∙ v.alive)
        (calm.goes_on (interlude env run a).world.moment)

  interlude-IsUndisturbed : (a : Attempt) → IsUndisturbed a → IsUndisturbed (interlude env run a)
  interlude-IsUndisturbed a v = onwards-IsUndisturbed a _ v (interlude_calm a v.attempt)

  -- The host of an attempt is quiet as long as nothing disturbs it.
  pub attempt_host-IsQuietWhile : IsQuietWhile IsUndisturbed (attempt_host env run)
  unfolding attempt_host look
  attempt_host-IsQuietWhile = record {
    keeps = record {
      on_canceled = interlude-IsUndisturbed;
      on_sleep = interlude-IsUndisturbed;
      on_fence =
          λ a v. let (e, u, c) = fence_calm a v.attempt in onwards-IsUndisturbed a _ v (u, c);
      on_commit = λ change a v.
          let (e, u, c) = sink_calm change a v.attempt in onwards-IsUndisturbed a _ v (u, c);
      on_persist = λ s a v. interlude-IsUndisturbed a v;
      on_now = λ a v. record {
        attempt = record {
          renewed_so_far = v.attempt.renewed_so_far;
          printed_so_far = v.attempt.printed_so_far;
          now = v.attempt.now;
          next = v.attempt.next;
        };
        alive = v.alive;
      };
    };
    goes_on = look_calm;
    sleeps = look_calm;
    fences = λ a v. (fence_calm a v.attempt).0;
    commits = λ change a v. (sink_calm change a v.attempt).0;
    persists = λ s a v. calm.written (interlude env run a).world.moment;
  }
