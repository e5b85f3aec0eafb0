-- ===== src/Agent/File.antt =====
-- internal/agent/agent.go: the session's file, that is persist, Load and generateID. The calls of
-- `os` on the file system `S`, and `rand.Read`, are parameters.
pub mod Laws
use agent_inbox_question.Base.{
  ℕ, ◌/◌, ◌%◌, String, ◌<>◌, Option, none, some, List, [], ◌∷◌, get_or, ok, err, ◌>>=◌,
}
use agent_inbox_question.Domain.Errors.{Error, Fallible}
use agent_inbox_question.Agent.Session.{SessionState, Json, decoded}

-- A temporary file is named by its path, and stands for its open handle too.
pub record FileSystem (S : Type 0) : Type 0 where
  pub create_temp : String → String → S → Fallible String × S
  pub chmod : String → S → Fallible (Unit {0}) × S
  pub write : String → String → S → Fallible (Unit {0}) × S
  pub sync : String → S → Fallible (Unit {0}) × S
  pub close : String → S → Fallible (Unit {0}) × S
  pub remove : String → S → Fallible (Unit {0}) × S
  pub rename : String → String → S → Fallible (Unit {0}) × S
  pub read_file : String → S → Fallible String

-- `filepath.Join(dataDir, "sessions")` for a clean directory, and a session's file there.
abbrev pub sessions_dir : String → String
sessions_dir dir = dir <> "/sessions"

abbrev pub session_path : String → String → String
session_path dir id = (sessions_dir dir <> "/" <> id) <> ".json"

abbrev pub temp_pattern : String → String
temp_pattern id = ("." <> id <> "-*") <> ".tmp"

module _ {S : Type 0} (fs : FileSystem S) where
  -- The error of a removal joins the cause, which stays the error.
  abbrev pub discard : String → Error → S → Fallible (Unit {0}) × S
  discard temp cause s = (err cause, (fs.remove temp s).1)

  abbrev pub cleanup : String → Error → S → Fallible (Unit {0}) × S
  cleanup temp cause s = discard temp cause (fs.close temp s).1

  abbrev pub renamed : String → Fallible (Unit {0}) × S → Fallible (Unit {0}) × S
  renamed temp (err e, s) = discard temp e s
  renamed temp (ok _, s) = (ok tt, s)

  abbrev pub closed : String → String → Fallible (Unit {0}) × S → Fallible (Unit {0}) × S
  closed path temp (err e, s) = discard temp e s
  closed path temp (ok _, s) = renamed temp (fs.rename temp path s)

  abbrev pub synced : String → String → Fallible (Unit {0}) × S → Fallible (Unit {0}) × S
  synced path temp (err e, s) = cleanup temp e s
  synced path temp (ok _, s) = closed path temp (fs.close temp s)

  abbrev pub written : String → String → Fallible (Unit {0}) × S → Fallible (Unit {0}) × S
  written path temp (err e, s) = cleanup temp e s
  written path temp (ok _, s) = synced path temp (fs.sync temp s)

  abbrev pub permitted :
      String → String → String → Fallible (Unit {0}) × S → Fallible (Unit {0}) × S
  permitted path data' temp (err e, s) = cleanup temp e s
  permitted path data' temp (ok _, s) = written path temp (fs.write temp data' s)

  abbrev pub created : String → String → Fallible String × S → Fallible (Unit {0}) × S
  created path data' (err e, s) = (err e, s)
  created path data' (ok temp, s) = permitted path data' temp (fs.chmod temp s)

  -- `indent` is `json.MarshalIndent`, which does not fail on a state.
  unfoldable pub persist :
      (SessionState → String) → String → SessionState → S → Fallible (Unit {0}) × S
  persist indent dir state s =
      created (session_path dir state.id) (indent state)
        (fs.create_temp (sessions_dir dir) (temp_pattern state.id) s)

  unfoldable pub load : Json → String → String → S → Fallible SessionState
  load json dir id s = do text ← fs.read_file (session_path dir id) s; decoded (json.unmarshal text)

-- `hex.EncodeToString`.
abbrev pub hex_digits : List String
hex_digits =
    "0" ∷ "1" ∷ "2" ∷ "3" ∷ "4" ∷ "5" ∷ "6" ∷ "7" ∷ "8" ∷ "9" ∷ "a" ∷ "b" ∷ "c" ∷ "d" ∷ "e" ∷ "f"
    ∷ []

unfoldable pub encode_to_string : List ℕ → String
encode_to_string [] = ""
encode_to_string (b ∷ bs) =
    get_or hex_digits (b / 16) "" <> get_or hex_digits (b % 16) "" <> encode_to_string bs

-- From the eight bytes of `rand.Read`, if it gives them.
abbrev pub generate_id : Option (List ℕ) → Option String
generate_id none = none
generate_id (some bs) = some (encode_to_string bs)
