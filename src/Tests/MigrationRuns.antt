-- ===== src/Tests/MigrationRuns.antt =====
-- The migrations on a fresh database, whose contents are the texts that it was given.
use agent_inbox_question.Base.{String, Bool, false, List, [], ◌∷◌, ok, ◌≡◌, refl}
use agent_inbox_question.Domain.Errors.{Fallible}
use agent_inbox_question.Store.Migrations.{
  Schema, MigrationCall, migrations, migrate, apply_migration, apply_migrations,
}
use agent_inbox_question.Store.Migrations.Laws.{AllApplied, migrate_once}

abbrev pub log_text : String → List String → Fallible (List String)
log_text t ts = ok (t ∷ ts)

abbrev pub none_fail : MigrationCall → Bool
none_fail _ = false

abbrev pub new_schema : Schema (List String)
new_schema = record { applied = []; body = [] }

migrates : (migrate none_fail log_text migrations new_schema).1 ≡ ok tt
unfolding migrate apply_migration apply_migrations
migrates = refl

migrates_versions :
    (migrate none_fail log_text migrations new_schema).0.applied ≡ 6 ∷ 5 ∷ 4 ∷ 3 ∷ 2 ∷ 1 ∷ []
unfolding migrate apply_migration apply_migrations
migrates_versions = refl

migrate_once_example :
    AllApplied migrations (migrate none_fail log_text migrations new_schema).0.applied
    × ((migrate none_fail log_text migrations
          (migrate none_fail log_text migrations new_schema).0).0
        ≡ (migrate none_fail log_text migrations new_schema).0)
migrate_once_example =
    migrate_once none_fail none_fail log_text log_text migrations new_schema migrates
