-- ===== src/Store/Open/Laws.antt =====
-- Open returns, and leaves no handle behind where it fails.
use agent_inbox_question.Base.{
  ℕ, zero, suc, ◌+◌, ◌*◌, ◌≤◌, String, Time, Bool, true, ◌||◌, not, Option, none, some, List, ok,
  err, is_ok, ◌≡◌, refl, inl, inr, Bool-cases, ◌⊎◌, arith, if◌then◌else◌, ltb,
}
use agent_inbox_question.Domain.Errors.{Error, Fallible}
use agent_inbox_question.Store.Migrations.{Migration, Schema, MigrationCall, migrate}
use agent_inbox_question.Store.Open.{
  WalAnswer, mode, refused, is_retryable, wal_patience, answered, wal_rounds, enable_wal, OpenCall,
  Opening, after_migrate, open_db,
}

module _ (clock : ℕ → Time) (answers : ℕ → WalAnswer) (starts : clock 0 ≤ clock 1)
    (sleeps : (i : ℕ) → clock (suc i) + 10_000_000 ≤ clock (suc (suc i))) where
  slept : (i : ℕ) → clock 0 + 10_000_000 * i ≤ clock (suc i)
  slept zero = omega (arith, starts)
  slept (suc i) = omega (arith, slept i, sleeps i)

  -- A round ends where the deadline is over, or where the rounds after it do.
  answered_ends :
      (i : ℕ) (a : WalAnswer) (more : Option (Fallible (Unit {0})))
      → (501 ≤ i) ⊎ ((r : Fallible (Unit {0})) × (more ≡ some r))
      → (r : Fallible (Unit {0})) × (answered clock answers i a more ≡ some r)
  answered_ends i (mode m) more h = (_, refl)
  answered_ends i (refused t) more (inl late) =
      let over : ltb (clock 0 + wal_patience) (clock (suc i)) ≡ true =
        ground (arith, slept i, late) in
      (err (Error.failure t), rw over refl)
  answered_ends i (refused t) more (inr (r, e)) =
      elim (Bool-cases (ltb (clock 0 + wal_patience) (clock (suc i)) || not (is_retryable t))) [
        | inl d ↦ (err (Error.failure t), rw d refl)
        | inr d ↦ (r, rw d e)
      ]

  wal_rounds_end :
      (fuel i : ℕ)
      → 501 ≤ fuel + i
      → (r : Fallible (Unit {0})) × (wal_rounds clock answers (suc fuel) i ≡ some r)
  unfolding wal_rounds
  wal_rounds_end zero i h = answered_ends i (answers i) none (inl (omega arith))
  wal_rounds_end (suc fuel) i h =
      answered_ends i (answers i) _ (inr (wal_rounds_end fuel (suc i) (omega arith)))

  -- A clock that shows every sleep of 10 milliseconds ends the loop of enableWAL.
  pub enable_wal_total : (r : Fallible (Unit {0})) × (enable_wal clock answers ≡ some r)
  unfolding enable_wal
  enable_wal_total = wal_rounds_end 501 0 (omega arith)

module _ {S : Type 0} (fails : OpenCall → Bool) (refuses : MigrationCall → Bool)
    (exec : String → S → Fallible S) where
  -- A result is there, with a handle more than `n` exactly where it is a success.
  abbrev Accounts : ℕ → Option (Fallible (Unit {0}) × Opening S) → Type 0
  Accounts n none = ⊥
  Accounts n (some (r, o)) = o.handles ≡ (if is_ok r then n + 1 else n)

  accounted :
      (n : ℕ) (x : Option (Fallible (Unit {0}) × Opening S))
      → Accounts n x
      → (r : Fallible (Unit {0})) × (o : Opening S) × (x ≡ some (r, o))
        × (o.handles ≡ (if is_ok r then n + 1 else n))
  accounted n none a = absurd a
  accounted n (some (r, o)) a = (r, o, refl, a)

  after_migrate-Accounts :
      (wal : Fallible (Unit {0})) (n : ℕ) (o : Opening S) (x : Schema S × Fallible (Unit {0}))
      → o.handles ≡ n + 1
      → Accounts n (after_migrate fails refuses exec (some wal) o x)
  after_migrate-Accounts wal n o (d, err e) h = omega (arith, h)
  after_migrate-Accounts (err e) n o (d, ok u) h = omega (arith, h)
  after_migrate-Accounts (ok v) n o (d, ok u) h = h

  open_db-Accounts :
      (wal : Fallible (Unit {0})) (ms : List Migration) (o : Opening S)
      → Accounts o.handles (open_db fails refuses exec (some wal) ms o)
  unfolding open_db
  open_db-Accounts wal ms o = elim (Bool-cases (fails OpenCall.make_data_dir)) [
    | inl a ↦ rw a refl
    | inr a ↦ elim (Bool-cases (fails OpenCall.make_sessions_dir)) [
      | inl b ↦ rw (a, b) refl
      | inr b ↦ elim (Bool-cases (fails OpenCall.open_handle)) [
        | inl c ↦ rw (a, b, c) refl
        | inr c ↦ elim (Bool-cases (fails OpenCall.ping)) [
          | inl d ↦ rw (a, b, c, d) (omega arith)
          | inr d ↦
              rw (a, b, c, d)
                (after_migrate-Accounts wal o.handles (record o { handles = o.handles + 1 })
                  (migrate refuses exec ms o.schema) refl)
        ]
      ]
    ]
  ]

-- Where the clock shows every sleep of 10 milliseconds, Open returns, whatever the calls answer; then
-- one handle more is open where it succeeds, and none where it fails.
pub open_db_handles :
    {S : Type 0} (clock : ℕ → Time) (answers : ℕ → WalAnswer) (fails : OpenCall → Bool)
    (refuses : MigrationCall → Bool) (exec : String → S → Fallible S) (ms : List Migration)
    (o : Opening S)
    → clock 0 ≤ clock 1
    → ((i : ℕ) → clock (suc i) + 10_000_000 ≤ clock (suc (suc i)))
    → (r : Fallible (Unit {0})) × (o' : Opening S) × (open_db fails refuses exec
          (enable_wal clock answers)
          ms
          o
        ≡ some (r, o'))
      × (o'.handles ≡ (if is_ok r then o.handles + 1 else o.handles))
open_db_handles clock answers fails refuses exec ms o starts sleeps =
    let (wal, e) = enable_wal_total clock answers starts sleeps in
    accounted fails refuses exec o.handles _ (rw e (open_db-Accounts fails refuses exec wal ms o))
