-- ===== src/Agent/File/Laws.antt =====
-- What the session's files hold after persist, and what Load gives back.
use agent_inbox_question.Base.{
  ◌≤◌, String, ◌<>◌, ◌&&◌, Option, some, ok, err, is_ok, ◌≡◌, ◌≢◌, sym, ◌∙◌, ap, arith,
  if◌then◌else◌, str_eq, eq_iff, inl, inr, Result-cases,
}
use agent_inbox_question.Base.Text.{codes, last, codes-append, last-append}
use agent_inbox_question.Domain.Errors.{Error, Fallible}
use text.Mathlib.TextPositions.{eq_refl}
use agent_inbox_question.Agent.Session.{SessionState, Json, upgrade_to_2, upgrade_to_3}
use agent_inbox_question.Agent.File.{
  FileSystem, sessions_dir, session_path, temp_pattern, persist, load, discard, cleanup, renamed,
  load, closed, synced, written, permitted,
}

-- What the code relies on of `os`, with the contents of files by path: a temporary file is new, empty
-- and named as its pattern ends; a write to an empty file that succeeds is whole, and touches no
-- other file; a rename that succeeds moves the contents, and one that fails changes nothing.
pub record IsLawful {S : Type 0} (fs : FileSystem S) (content : S → String → Option String)
    : Type 0 where
  pub temp_named :
      (dir prefix : String) (s : S) (p : String)
      → (fs.create_temp dir (prefix <> ".tmp") s).0 ≡ ok p
      → last (codes p) ≡ last (codes ".tmp")
  pub temp_empty :
      (dir pattern : String) (s : S) (p : String)
      → (fs.create_temp dir pattern s).0 ≡ ok p
      → content (fs.create_temp dir pattern s).1 p ≡ some ""
  pub temp_other :
      (dir pattern : String) (s : S) (q : String)
      → ((p : String) → (fs.create_temp dir pattern s).0 ≡ ok p → q ≢ p)
      → content (fs.create_temp dir pattern s).1 q ≡ content s q
  pub chmod_same : (p : String) (s : S) (q : String) → content (fs.chmod p s).1 q ≡ content s q
  pub write_whole :
      (p text : String) (s : S)
      → content s p ≡ some ""
      → (fs.write p text s).0 ≡ ok tt
      → content (fs.write p text s).1 p ≡ some text
  pub write_other :
      (p text : String) (s : S) (q : String) → q ≢ p → content (fs.write p text s).1 q ≡ content s q
  pub sync_same : (p : String) (s : S) (q : String) → content (fs.sync p s).1 q ≡ content s q
  pub close_same : (p : String) (s : S) (q : String) → content (fs.close p s).1 q ≡ content s q
  pub remove_other :
      (p : String) (s : S) (q : String) → q ≢ p → content (fs.remove p s).1 q ≡ content s q
  pub rename_moves :
      (p path : String) (s : S)
      → (fs.rename p path s).0 ≡ ok tt
      → content (fs.rename p path s).1 path ≡ content s p
  pub rename_other :
      (p path : String) (s : S) (q : String)
      → q ≢ p
      → q ≢ path
      → content (fs.rename p path s).1 q ≡ content s q
  pub rename_fails :
      (p path : String) (s : S) (e : Error) (q : String)
      → (fs.rename p path s).0 ≡ err e
      → content (fs.rename p path s).1 q ≡ content s q
  pub reads : (p text : String) (s : S) → fs.read_file p s ≡ ok text → content s p ≡ some text

module _ {S : Type 0} (fs : FileSystem S) (content : S → String → Option String)
    (lawful : IsLawful fs content) (path text q : String) where
  open lawful use {
    chmod_same, write_whole, write_other, sync_same, close_same, remove_other, rename_moves,
    rename_other, rename_fails,
  }

  -- From a state on, the file `q` is replaced when it is the target and the rest succeeds.
  abbrev Replaces : S → Fallible (Unit {0}) × S → Type 0
  Replaces s x = content x.1 q ≡ (if str_eq q path && is_ok x.0 then some text else content s q)

  module _ (temp : String) (apart : q ≢ temp) where
    discard-Replaces : (s : S) (e : Error) → Replaces s (discard fs temp e s)
    discard-Replaces s e = ground (arith, remove_other temp s q apart)

    cleanup-Replaces : (s : S) (e : Error) → Replaces s (cleanup fs temp e s)
    cleanup-Replaces s e =
        ground (arith, remove_other temp (fs.close temp s).1 q apart, close_same temp s q)

    rename-Replaces :
        (s : S) → content s temp ≡ some text → Replaces s (renamed fs temp (fs.rename temp path s))
    rename-Replaces s h = elim (Result-cases (fs.rename temp path s).0) [
      | inl (tt, e) ↦
          ground (
            arith,
            e,
            h,
            rename_moves temp path s e,
            rename_other temp path s q apart,
            eq_iff q path,
          )
      | inr (x, e) ↦ ground (
        arith,
        e,
        rename_fails temp path s x q e,
        remove_other temp (fs.rename temp path s).1 q apart,
      )
    ]

    close-Replaces :
        (s : S) → content s temp ≡ some text → Replaces s (closed fs path temp (fs.close temp s))
    close-Replaces s h = elim (Result-cases (fs.close temp s).0) [
      | inl (tt, e) ↦ ground (
        arith,
        e,
        close_same temp s q,
        rename-Replaces (fs.close temp s).1 (close_same temp s temp ∙ h),
      )
      | inr (x, e) ↦ ground (arith, e, close_same temp s q, discard-Replaces (fs.close temp s).1 x)
    ]

    sync-Replaces :
        (s : S) → content s temp ≡ some text → Replaces s (synced fs path temp (fs.sync temp s))
    sync-Replaces s h = elim (Result-cases (fs.sync temp s).0) [
      | inl (tt, e) ↦ ground (
        arith,
        e,
        sync_same temp s q,
        close-Replaces (fs.sync temp s).1 (sync_same temp s temp ∙ h),
      )
      | inr (x, e) ↦ ground (arith, e, sync_same temp s q, cleanup-Replaces (fs.sync temp s).1 x)
    ]

    write-Replaces :
        (s : S)
        → content s temp ≡ some ""
        → Replaces s (written fs path temp (fs.write temp text s))
    write-Replaces s h = elim (Result-cases (fs.write temp text s).0) [
      | inl (tt, e) ↦ ground (
        arith,
        e,
        write_other temp text s q apart,
        sync-Replaces (fs.write temp text s).1 (write_whole temp text s h e),
      )
      | inr (x, e) ↦
          ground
            (arith, e, write_other temp text s q apart, cleanup-Replaces (fs.write temp text s).1 x)
    ]

    chmod-Replaces :
        (s : S)
        → content s temp ≡ some ""
        → Replaces s (permitted fs path text temp (fs.chmod temp s))
    chmod-Replaces s h = elim (Result-cases (fs.chmod temp s).0) [
      | inl (tt, e) ↦ ground (
        arith,
        e,
        chmod_same temp s q,
        write-Replaces (fs.chmod temp s).1 (chmod_same temp s temp ∙ h),
      )
      | inr (x, e) ↦ ground (arith, e, chmod_same temp s q, cleanup-Replaces (fs.chmod temp s).1 x)
    ]

last-session : (dir id : String) → last (codes (session_path dir id)) ≡ last (codes ".json")
last-session dir id =
    ap last (codes-append (sessions_dir dir <> "/" <> id) ".json")
    ∙ last-append (codes (sessions_dir dir <> "/" <> id)) _ _

module _ {S : Type 0} (fs : FileSystem S) (content : S → String → Option String)
    (lawful : IsLawful fs content) (indent : SessionState → String) (dir : String)
    (state : SessionState) (s : S) where
  apart_from_temp :
      (dir' id p : String)
      → (fs.create_temp (sessions_dir dir) (temp_pattern state.id) s).0 ≡ ok p
      → session_path dir' id ≢ p
  apart_from_temp dir' id p e same = absurd (
      omega (
        arith,
        last-session dir' id,
        lawful.temp_named _ _ s p e,
        ap (λ (t : String). last (codes t)) same,
      ))

  -- On a lawful file system persist, with success or error, leaves every session's file as it was,
  -- but that its own file holds the whole encoded state where it succeeds.
  pub persist_replaces :
      (dir' id : String)
      → let x = persist fs indent dir state s in
        content x.1 (session_path dir' id) ≡ (
          if str_eq (session_path dir' id) (session_path dir state.id) && is_ok x.0
          then some (indent state)
          else content s (session_path dir' id))
  unfolding persist
  persist_replaces dir' id =
      let pattern = temp_pattern state.id in
      let s' = (fs.create_temp (sessions_dir dir) pattern s).1 in
      let other =
        lawful.temp_other (sessions_dir dir) pattern s (session_path dir' id)
          (apart_from_temp dir' id) in
      elim (Result-cases (fs.create_temp (sessions_dir dir) pattern s).0) [
        | inl (p, e) ↦ ground (
          arith,
          e,
          other,
          chmod-Replaces fs content lawful (session_path dir state.id) (indent state)
              (session_path dir' id) p (apart_from_temp dir' id p e) s'
              (lawful.temp_empty _ _ s p e),
        )
        | inr (x, e) ↦ ground (arith, e, other)
      ]

  -- On a lawful file system, and where the decoder inverts the encoder at a state of the last
  -- version, Load gives back the session that persist wrote, when the file can be read.
  pub load-persist :
      (json : Json) (text : String)
      → (persist fs indent dir state s).0 ≡ ok tt
      → fs.read_file (session_path dir state.id) (persist fs indent dir state s).1 ≡ ok text
      → json.unmarshal (indent state) ≡ some state
      → 3 ≤ state.budget_model_version
      → load fs json dir state.id (persist fs indent dir state s).1 ≡ ok state
  unfolding load upgrade_to_2 upgrade_to_3
  load-persist json text won read inverse version =
      let same = sym (lawful.reads _ text _ read) ∙ persist_replaces dir state.id in
      let t : text ≡ indent state =
        ground (arith, same, won, eq_refl (session_path dir state.id)) in
      rw (read, t, inverse) (ground (arith, version))
