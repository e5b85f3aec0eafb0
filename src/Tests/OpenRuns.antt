-- ===== src/Tests/OpenRuns.antt =====
-- Opening a fresh database whose journal is locked for a while.
use agent_inbox_question.Base.{
  ℕ, ◌+◌, ◌*◌, Bool, false, some, ok, is_ok, ◌≡◌, refl, arith, if◌then◌else◌, ltb, Time, String,
  List,
}
use agent_inbox_question.Domain.Errors.{Fallible}
use agent_inbox_question.Store.Migrations.{migrations}
use agent_inbox_question.Store.Open.{
  WalAnswer, mode, refused, is_retryable, wal_rounds, enable_wal, OpenCall, Opening, open_db,
  is_wal, contains, starts_with,
}
use agent_inbox_question.Store.Open.Laws.{open_db_handles}
use agent_inbox_question.Tests.MigrationRuns.{log_text, none_fail, new_schema}

abbrev ticks : ℕ → Time
ticks i = 10_000_000 * i

abbrev late_answers : ℕ → WalAnswer
late_answers i = if ltb i 3 then refused "database is locked (5)" else mode "WAL"

abbrev none_fails : OpenCall → Bool
none_fails _ = false

abbrev closed_database : Opening (List String)
closed_database = record { schema = new_schema; handles = 0 }

locked_for_a_while : enable_wal ticks late_answers ≡ some (ok tt)
unfolding enable_wal wal_rounds is_retryable is_wal contains starts_with
locked_for_a_while = refl

open_db_handles_example :
    (r : Fallible (Unit {0})) × (o : Opening (List String)) × (open_db none_fails none_fail log_text
        (enable_wal ticks late_answers)
        migrations
        closed_database
      ≡ some (r, o))
    × (o.handles ≡ (if is_ok r then 0 + 1 else 0))
open_db_handles_example =
    open_db_handles ticks late_answers none_fails none_fail log_text migrations closed_database
      (omega arith) (λ i. omega arith)
