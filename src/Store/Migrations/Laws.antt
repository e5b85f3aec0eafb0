-- ===== src/Store/Migrations/Laws.antt =====
-- A migration is made whole or not at all, and once.
use agent_inbox_question.Base.{
  ℕ, String, Bool, true, false, List, [], ◌∷◌, ok, err, is_ok, >>=-eq-ok, ◌≡◌, refl, arith,
  Bool-cases, inl, inr, Result-cases,
}
use agent_inbox_question.Domain.Errors.{Fallible}
use agent_inbox_question.Store.Migrations.{
  Migration, Schema, MigrationCall, is_applied, apply_migration, apply_migrations, migrated,
  migrate,
}

-- Every migration of a list is recorded.
abbrev pub AllApplied : List Migration → List ℕ → Type 0
AllApplied [] vs = Unit {0}
AllApplied (m ∷ ms) vs = (is_applied m.version vs ≡ true) × AllApplied ms vs

module _ {S : Type 0} (fails : MigrationCall → Bool) (exec : String → S → Fallible S) where
  apply_migration-keeps :
      (m : Migration) (d d' : Schema S) (v : ℕ)
      → apply_migration fails exec m d ≡ ok d'
      → is_applied v d.applied ≡ true
      → is_applied v d'.applied ≡ true
  unfolding apply_migration
  apply_migration-keeps m d d' v h k = elim (Result-cases (exec m.sql d.body)) [
    | inl (b, e) ↦ ground (arith, e, k)
    | inr (x, e) ↦ ground (arith, e, k)
  ]

  apply_migration_records :
      (m : Migration) (d d' : Schema S)
      → apply_migration fails exec m d ≡ ok d'
      → is_applied m.version d'.applied ≡ true
  unfolding apply_migration
  apply_migration_records m d d' h = elim (Result-cases (exec m.sql d.body)) [
    | inl (b, e) ↦ ground (arith, e)
    | inr (x, e) ↦ ground (arith, e)
  ]

  apply_migrations-keeps :
      (ms : List Migration) (d d' : Schema S) (v : ℕ)
      → apply_migrations fails exec ms d ≡ ok d'
      → is_applied v d.applied ≡ true
      → is_applied v d'.applied ≡ true
  unfolding apply_migrations
  apply_migrations-keeps [] d d' v h k = ground (arith, k)
  apply_migrations-keeps (m ∷ ms) d d' v h k =
      let (e, (f, g)) =
        >>=-eq-ok (apply_migration fails exec m d) (apply_migrations fails exec ms) h in
      apply_migrations-keeps ms e d' v g (apply_migration-keeps m d e v f k)

  pub apply_migrations-AllApplied :
      (ms : List Migration) (d d' : Schema S)
      → apply_migrations fails exec ms d ≡ ok d'
      → AllApplied ms d'.applied
  unfolding apply_migrations
  apply_migrations-AllApplied [] d d' h = tt
  apply_migrations-AllApplied (m ∷ ms) d d' h =
      let (e, (f, g)) =
        >>=-eq-ok (apply_migration fails exec m d) (apply_migrations fails exec ms) h in
      (
        apply_migrations-keeps ms e d' m.version g (apply_migration_records m d e f),
        apply_migrations-AllApplied ms e d' g,
      )

  -- Migrations that are all recorded change nothing.
  apply_migrations_again :
      (ms : List Migration) (d d' : Schema S)
      → AllApplied ms d.applied
      → apply_migrations fails exec ms d ≡ ok d'
      → d' ≡ d
  unfolding apply_migrations apply_migration
  apply_migrations_again [] d d' a h = ground (arith, h)
  apply_migrations_again (m ∷ ms) d d' a h =
      elim (Bool-cases (fails (MigrationCall.check_version m.version))) [
        | inl e ↦ ground (arith, e)
        | inr e ↦ apply_migrations_again ms d d' a.1 (ground (arith, e, a.0))
      ]

  migrated-ok :
      (d : Schema S) (x : Fallible (Schema S))
      → (migrated fails exec d x).1 ≡ ok tt
      → x ≡ ok (migrated fails exec d x).0
  migrated-ok d (err e) h = cc
  migrated-ok d (ok d') h = ground arith

  migrate-ok :
      (ms : List Migration) (d : Schema S)
      → (migrate fails exec ms d).1 ≡ ok tt
      → apply_migrations fails exec ms d ≡ ok (migrate fails exec ms d).0
  unfolding migrate
  migrate-ok ms d h = ground (arith, migrated-ok d (apply_migrations fails exec ms d))

  migrated_settled :
      (d : Schema S) (x : Fallible (Schema S))
      → ((d' : Schema S) → x ≡ ok d' → d' ≡ d)
      → (migrated fails exec d x).0 ≡ d
  migrated_settled d (err e) k = refl
  migrated_settled d (ok d') k = ground (arith, k d' refl)

  -- A schema where every migration is recorded stays as it is, whatever calls fail.
  migrate_settled :
      (ms : List Migration) (d : Schema S)
      → AllApplied ms d.applied
      → (migrate fails exec ms d).0 ≡ d
  unfolding migrate
  migrate_settled ms d a = ground (
    arith,
    migrated_settled d (apply_migrations fails exec ms d)
        (λ d' h. apply_migrations_again ms d d' a h),
  )

  -- A migration that fails leaves the schema as it was.
  pub migrate_error :
      (ms : List Migration) (d : Schema S)
      → is_ok (migrate fails exec ms d).1 ≡ false
      → (migrate fails exec ms d).0 ≡ d
  unfolding migrate
  migrate_error ms d h = elim (Result-cases (apply_migrations fails exec ms d)) [
    | inl (d', e) ↦ ground (arith, e)
    | inr (x, e) ↦ ground (arith, e)
  ]

-- Migrations that succeed are all recorded, and migrating again, whatever calls fail and whatever
-- SQLite would make of the texts, leaves the schema as it is.
pub migrate_once :
    {S : Type 0} (fails fails' : MigrationCall → Bool) (exec exec' : String → S → Fallible S)
    (ms : List Migration) (d : Schema S)
    → (migrate fails exec ms d).1 ≡ ok tt
    → AllApplied ms (migrate fails exec ms d).0.applied
      × ((migrate fails' exec' ms (migrate fails exec ms d).0).0 ≡ (migrate fails exec ms d).0)
migrate_once fails fails' exec exec' ms d h =
    let a = apply_migrations-AllApplied fails exec ms d _ (migrate-ok fails exec ms d h) in
    (a, migrate_settled fails' exec' ms _ a)
