-- ===== src/Tests/FileRuns.antt =====
-- A file system in memory, and a session's file on it.
use text.Mathlib.TextEquality.{eq_iff}
use mathlib.Core.List.{append_assoc}
use agent_inbox_question.Base.{
  ℕ, String, ◌<>◌, Option, none, some, ok, err, ◌≡◌, refl, sym, ◌∙◌, ap, arith, List, ◌++◌,
  if◌then◌else◌, str_eq,
}
use agent_inbox_question.Base.Text.{codes, last, codes-append, last-append}
use agent_inbox_question.Domain.Errors.{Error, Fallible}
use agent_inbox_question.Agent.Session.{Json}
use agent_inbox_question.Agent.File.{FileSystem, persist, load, session_path}
use agent_inbox_question.Agent.File.Laws.{IsLawful, persist_replaces, load-persist}
use agent_inbox_question.Tests.AgentRuns.{two_steps}

abbrev Files : Type 0
Files = String → Option String

abbrev put_file : String → Option String → Files → Files
put_file p t s q = if str_eq q p then t else s q

abbrev read_at : Option String → Fallible String
read_at none = err (Error.failure "no such file")
read_at (some t) = ok t

abbrev move : String → String → Files → Option String → Fallible (Unit {0}) × Files
move p path s none = (err (Error.failure "no such file"), s)
move p path s (some t) = (ok tt, put_file path (some t) (put_file p none s))

abbrev memory : FileSystem Files
memory = record {
  create_temp = λ dir pattern s.
      (ok ((dir <> "/") <> pattern), put_file ((dir <> "/") <> pattern) (some "") s);
  chmod = λ p s. (ok tt, s);
  write = λ p t s. (ok tt, put_file p (some t) s);
  sync = λ p s. (ok tt, s);
  close = λ p s. (ok tt, s);
  remove = λ p s. (ok tt, put_file p none s);
  rename = λ p path s. move p path s (s p);
  read_file = λ p s. read_at (s p);
}

named : (a p : String) (r : Fallible String) → r ≡ ok p → r ≡ ok a → a ≡ p
named a p r e f = cc

temp_name :
    (start prefix : String) → last (codes (start <> (prefix <> ".tmp"))) ≡ last (codes ".tmp")
temp_name start prefix =
    ap last (
      codes-append start (prefix <> ".tmp")
      ∙ ap (λ (cs : List ℕ). codes start ++ cs) (codes-append prefix ".tmp")
      ∙ sym (append_assoc (codes start) (codes prefix) (codes ".tmp")))
    ∙ last-append (codes start ++ codes prefix) _ _

memory-IsLawful : IsLawful memory (λ s. s)
memory-IsLawful = record {
  temp_named = λ dir prefix s p e.
      ap (λ (t : String). last (codes t)) (sym (named _ p _ e refl))
      ∙ temp_name (dir <> "/") prefix;
  temp_empty = λ dir pattern s p e. ground (arith, e, eq_iff p p);
  temp_other = λ dir pattern s q other.
      ground (arith, other ((dir <> "/") <> pattern) refl, eq_iff q ((dir <> "/") <> pattern));
  chmod_same = λ p s q. refl;
  write_whole = λ p t s h e. ground (arith, eq_iff p p);
  write_other = λ p t s q apart. ground (arith, eq_iff q p);
  sync_same = λ p s q. refl;
  close_same = λ p s q. refl;
  remove_other = λ p s q apart. ground (arith, eq_iff q p);
  rename_moves = λ p path s e. ground (arith, eq_iff path path);
  rename_other = λ p path s q a b. ground (arith, eq_iff q p, eq_iff q path);
  rename_fails = λ p path s e q h. ground (arith);
  reads = λ p t s h. ground (arith);
}

-- An encoding that keeps one state, and its decoder.
abbrev one_json : Json
one_json = record { marshal = λ s. "{}"; unmarshal = λ t. some two_steps }

abbrev none_yet : Files
none_yet path = none

persists : (persist memory (λ s. "{}") "data" two_steps none_yet).0 ≡ ok tt
unfolding persist
persists = refl

persist_replaces_example :
    (persist memory (λ s. "{}") "data" two_steps none_yet).1 (session_path "data" "other") ≡ none
unfolding persist
persist_replaces_example =
    persist_replaces memory (λ s. s) memory-IsLawful (λ s. "{}") "data" two_steps none_yet "data"
      "other"

load-persist_example :
    load memory one_json "data" two_steps.id
      (persist memory (λ s. "{}") "data" two_steps none_yet).1
    ≡ ok two_steps
unfolding persist
load-persist_example =
    load-persist memory (λ s. s) memory-IsLawful (λ s. "{}") "data" two_steps none_yet one_json "{}"
      persists refl refl (omega arith)
