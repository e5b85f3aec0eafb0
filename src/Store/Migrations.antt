-- ===== src/Store/Migrations.antt =====
-- internal/store/migrations.go, and migrate of db.go. What SQLite makes of the text of a migration is
-- a parameter, on any type of contents.
pub mod Laws
use agent_inbox_question.Base.{
  ℕ, String, ◌<>◌, Bool, false, ◌||◌, List, [], ◌∷◌, if◌then◌else◌, ◌==◌, ok, err, ◌>>=◌,
}
use agent_inbox_question.Domain.Errors.{Fallible}
use agent_inbox_question.Store.Database.{sql_failure}

pub record Migration : Type 0 where
  pub version : ℕ
  pub sql : String

abbrev pub migrations : List Migration
migrations =
    record {
      version = 1;
      sql =
          "\n" <> "CREATE TABLE tasks (\n" <> "\tid INTEGER PRIMARY KEY AUTOINCREMENT,\n"
          <> "\ttitle TEXT NOT NULL,\n" <> "\tdescription TEXT NOT NULL DEFAULT '',\n"
          <> "\tstatus TEXT NOT NULL DEFAULT 'todo',\n" <> "\tcreated_at TEXT NOT NULL,\n"
          <> "\tupdated_at TEXT NOT NULL\n" <> ");\n" <> "\n" <> "CREATE TABLE runs (\n"
          <> "\tid INTEGER PRIMARY KEY AUTOINCREMENT,\n"
          <> "\ttask_id INTEGER NOT NULL REFERENCES tasks(id),\n" <> "\tsession_id TEXT NOT NULL,\n"
          <> "\tstatus TEXT NOT NULL DEFAULT 'running',\n"
          <> "\texit_reason TEXT NOT NULL DEFAULT '',\n" <> "\toutput TEXT NOT NULL DEFAULT '',\n"
          <> "\ttokens_used INTEGER NOT NULL DEFAULT 0,\n"
          <> "\ttoken_budget INTEGER NOT NULL DEFAULT 0,\n" <> "\terror TEXT NOT NULL DEFAULT '',\n"
          <> "\tstarted_at TEXT NOT NULL,\n" <> "\tfinished_at TEXT\n" <> ");\n";
    }
    ∷ record {
      version = 2;
      sql =
          "\n" <> "CREATE TABLE comments (\n" <> "\tid INTEGER PRIMARY KEY AUTOINCREMENT,\n"
          <> "\ttask_id INTEGER NOT NULL REFERENCES tasks(id),\n" <> "\tauthor TEXT NOT NULL,\n"
          <> "\tbody TEXT NOT NULL,\n" <> "\tcreated_at TEXT NOT NULL\n" <> ");\n";
    }
    ∷ record {
      version = 3;
      sql =
          "CREATE INDEX idx_runs_task_id ON runs(task_id);\n"
          <> "CREATE INDEX idx_comments_task_id ON comments(task_id);";
    }
    ∷ record {
      version = 4;
      sql =
          "ALTER TABLE tasks ADD COLUMN next_eligible_at TEXT;\n"
          <> "ALTER TABLE tasks ADD COLUMN auto_retry_state TEXT NOT NULL DEFAULT '';\n"
          <> "ALTER TABLE tasks ADD COLUMN auto_retry_reason TEXT NOT NULL DEFAULT '';\n"
          <> "CREATE INDEX idx_tasks_auto_retry ON tasks(auto_retry_state, next_eligible_at);";
    }
    ∷ record {
      version = 5;
      sql =
          "ALTER TABLE runs ADD COLUMN owner_token TEXT NOT NULL DEFAULT '';\n"
          <> "ALTER TABLE runs ADD COLUMN lease_expires_at TEXT;\n"
          <> "ALTER TABLE runs ADD COLUMN start_step INTEGER NOT NULL DEFAULT 0;\n"
          <> "UPDATE runs SET lease_expires_at = started_at\n"
          <> "WHERE status = 'running' AND lease_expires_at IS NULL;\n"
          <> "CREATE INDEX idx_runs_expired_lease ON runs(status, lease_expires_at);";
    }
    ∷ record {
      version = 6;
      sql = "ALTER TABLE runs ADD COLUMN session_checkpoint TEXT NOT NULL DEFAULT '';";
    }
    ∷ []

-- The versions in `schema_migrations`, none where that table is not there, and the other contents.
pub record Schema (S : Type 0) : Type 0 where
  pub applied : List ℕ
  pub body : S

-- The statements of migrate, each of which the driver may refuse.
pub data MigrationCall : Type 0 where
  begin_immediate create_table commit : MigrationCall
  check_version record_version : ℕ → MigrationCall

abbrev pub is_applied : ℕ → List ℕ → Bool
is_applied v [] = false
is_applied v (w ∷ ws) = w == v || is_applied v ws

module _ {S : Type 0} (fails : MigrationCall → Bool) (exec : String → S → Fallible S) where
  abbrev pub applied_as : Migration → Schema S → Fallible S → Fallible (Schema S)
  applied_as m d (err e) = err e
  applied_as m d (ok body) =
      if fails (MigrationCall.record_version m.version)
      then err sql_failure
      else ok (record { applied = m.version ∷ d.applied; body = body })

  unfoldable pub apply_migration : Migration → Schema S → Fallible (Schema S)
  apply_migration m d =
      if fails (MigrationCall.check_version m.version)
      then err sql_failure
      else if is_applied m.version d.applied
      then ok d
      else applied_as m d (exec m.sql d.body)

  unfoldable pub apply_migrations : List Migration → Schema S → Fallible (Schema S)
  apply_migrations [] d = ok d
  apply_migrations (m ∷ ms) d = apply_migration m d >>= apply_migrations ms

  abbrev pub migrated : Schema S → Fallible (Schema S) → Schema S × Fallible (Unit {0})
  migrated d (err e) = (d, err e)
  migrated d (ok d') = if fails MigrationCall.commit then (d, err sql_failure) else (d', ok tt)

  -- The schema that is committed; each error rolls the transaction back.
  unfoldable pub migrate : List Migration → Schema S → Schema S × Fallible (Unit {0})
  migrate ms d =
      if fails MigrationCall.begin_immediate
      then (d, err sql_failure)
      else if fails MigrationCall.create_table
      then (d, err sql_failure)
      else migrated d (apply_migrations ms d)
