-- ===== src/Store/Open.antt =====
-- internal/store/db.go: Open and enableWAL. What the calls of `os`, of the driver and of the clock
-- answer are parameters; migrate is that of Store.Migrations.
pub mod Laws
use agent_inbox_question.Base.{
  ℕ, zero, suc, ◌+◌, ◌-◌, String, Time, Bool, true, false, ◌&&◌, ◌||◌, not, Option, none, some,
  List, [], ◌∷◌, map, if◌then◌else◌, ◌==◌, ltb, leb, ok, err,
}
use agent_inbox_question.Base.Text.{codes}
use agent_inbox_question.Domain.Errors.{Error, Fallible}
use agent_inbox_question.Store.Migrations.{Migration, Schema, MigrationCall, migrate}

-- `strings.Contains`.
unfoldable pub starts_with : List ℕ → List ℕ → Bool
starts_with [] cs = true
starts_with (p ∷ ps) [] = false
starts_with (p ∷ ps) (c ∷ cs) = p == c && starts_with ps cs

unfoldable pub contains : List ℕ → List ℕ → Bool
unfolding starts_with
contains ps [] = starts_with ps []
contains ps (c ∷ cs) = starts_with ps (c ∷ cs) || contains ps cs

-- `strings.EqualFold(mode, "wal")`: no code but the ASCII capitals folds to a letter of `wal`.
abbrev pub fold : ℕ → ℕ
fold c = if leb b'A' c && leb c b'Z' then c + 32 else c

abbrev pub same_codes : List ℕ → List ℕ → Bool
same_codes [] [] = true
same_codes (c ∷ cs) (d ∷ ds) = c == d && same_codes cs ds
same_codes _ _ = false

unfoldable pub is_wal : String → Bool
is_wal mode = same_codes (map fold (codes mode)) (codes "wal")

-- The answer to `PRAGMA journal_mode=WAL`: the mode, or the text of an error.
pub data WalAnswer : Type 0 where
  mode refused : String → WalAnswer

unfoldable pub is_retryable : String → Bool
unfolding contains
is_retryable text = contains (codes "locked") (codes text) || contains (codes "busy") (codes text)

-- 5 seconds.
abbrev pub wal_patience : ℕ
wal_patience = 5_000_000_000

module _ (clock : ℕ → Time) (answers : ℕ → WalAnswer) where
  -- The answer of a round, where the clock is read once before the loop and once after each refusal.
  abbrev pub answered : ℕ → WalAnswer → Option (Fallible (Unit {0})) → Option (Fallible (Unit {0}))
  answered i (mode m) more = some (if is_wal m then ok tt else err (Error.failure "journal mode"))
  answered i (refused text) more =
      if ltb (clock 0 + wal_patience) (clock (suc i)) || not (is_retryable text)
      then some (err (Error.failure text))
      else more

  unfoldable pub wal_rounds : ℕ → ℕ → Option (Fallible (Unit {0}))
  wal_rounds zero i = none
  wal_rounds (suc fuel) i = let more = wal_rounds fuel (suc i) in answered i (answers i) more

  -- Every round but the last sleeps 10 milliseconds, so that the deadline is over after 501 of them.
  unfoldable pub enable_wal : Option (Fallible (Unit {0}))
  unfolding wal_rounds
  enable_wal = wal_rounds 502 0

pub data OpenCall : Type 0 where
  make_data_dir make_sessions_dir open_handle ping : OpenCall

-- The file of the database, and the handles on it that are open.
pub record Opening (S : Type 0) : Type 0 where
  pub schema : Schema S
  pub handles : ℕ

module _ {S : Type 0} (fails : OpenCall → Bool) (refuses : MigrationCall → Bool)
    (exec : String → S → Fallible S) (wal : Option (Fallible (Unit {0}))) where
  -- `db.Close()` in front of an error.
  abbrev pub give_up : Opening S → Error → Fallible (Unit {0}) × Opening S
  give_up o e = (err e, record o { handles = o.handles - 1 })

  abbrev pub after_wal :
      Opening S → Option (Fallible (Unit {0})) → Option (Fallible (Unit {0}) × Opening S)
  after_wal o none = none
  after_wal o (some (err e)) = some (give_up o e)
  after_wal o (some (ok _)) = some (ok tt, o)

  abbrev pub after_migrate :
      Opening S → Schema S × Fallible (Unit {0}) → Option (Fallible (Unit {0}) × Opening S)
  after_migrate o (d, err e) = some (give_up (record o { schema = d }) e)
  after_migrate o (d, ok _) = after_wal (record o { schema = d }) wal

  unfoldable pub open_db : List Migration → Opening S → Option (Fallible (Unit {0}) × Opening S)
  open_db ms o =
      let o' = record o { handles = o.handles + 1 } in
      if fails OpenCall.make_data_dir
      then some (err (Error.failure "create data dir"), o)
      else if fails OpenCall.make_sessions_dir
      then some (err (Error.failure "create sessions dir"), o)
      else if fails OpenCall.open_handle
      then some (err (Error.failure "open database"), o)
      else if fails OpenCall.ping
      then some (give_up o' (Error.failure "ping database"))
      else after_migrate o' (migrate refuses exec ms o.schema)
