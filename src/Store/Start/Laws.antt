-- ===== src/Store/Start/Laws.antt =====
-- What a claim does to the tables: the task and its new run, or nothing.
use agent_inbox_question.Base.{
  suc, Time, String, ◌≡◌, refl, true, Option, none, some, ok, err, ◌∷◌, ◌⊎◌, inl, inr, arith,
  is_positive,
}
use agent_inbox_question.Domain.Errors.{Error, Fallible}
use agent_inbox_question.Domain.Status.{TaskStatus}
use agent_inbox_question.Domain.Transition.{transition}
use agent_inbox_question.Store.Table.{count_where, update_where}
use agent_inbox_question.Store.Database.{Db, Run, Handle, at_rest, SqlDates, Faults}
use agent_inbox_question.Store.Start.{
  StartAttemptParams, StartAuthorization, claims, claimed_task, started_run, insert_run, start_tx,
  start_time, start_with_token, start_checked, start_authorized,
}

-- The tables after the claim and the insert.
abbrev pub started_db : SqlDates → StartAuthorization → StartAttemptParams → Time → String → Db → Db
started_db dates authorization params at token db = record db {
  tasks = update_where (claims dates at authorization params db.runs) (claimed_task at) db.tasks;
  runs = started_run params at token (suc db.run_seq) ∷ db.runs;
  run_seq = suc db.run_seq;
}

module _ (fails : Faults) (params : StartAttemptParams) (at : Time) (token : String) (db w : Db)
    {h : Handle} where
  insert_ok :
      {run : Run}
      → insert_run fails params at token db w ≡ (h, ok run)
      → (run ≡ started_run params at token (suc w.run_seq))
        × (h ≡ at_rest (record w { runs = run ∷ w.runs; run_seq = suc w.run_seq }))
  unfolding insert_run
  insert_ok r = ground arith

  insert_error : {e : Error} → insert_run fails params at token db w ≡ (h, err e) → h ≡ at_rest db
  unfolding insert_run
  insert_error r = ground arith

module _ (dates : SqlDates) (fails : Faults) (authorization : StartAuthorization)
    (params : StartAttemptParams) (db : Db) where
  abbrev claimed_db : Time → Db
  claimed_db at = record db {
    tasks = update_where (claims dates at authorization params db.runs) (claimed_task at) db.tasks;
  }

  tx_ok :
      (at : Time) (token : String) {h : Handle} {run : Run}
      → start_tx dates fails authorization params at token db ≡ (h, ok run)
      → (count_where (claims dates at authorization params db.runs) db.tasks ≡ 1)
        × (insert_run fails params at token db (claimed_db at) ≡ (h, ok run))
  unfolding start_tx
  tx_ok at token r = ground arith

  tx_error :
      (at : Time) (token : String) {h : Handle} {e : Error}
      → start_tx dates fails authorization params at token db ≡ (h, err e)
      → (h ≡ at_rest db) ⊎ (insert_run fails params at token db (claimed_db at) ≡ (h, err e))
  unfolding start_tx
  tx_error at token r = ground arith

  with_token_ok :
      (clock : Time) (token : Option String) {h : Handle} {run : Run}
      → start_with_token dates fails clock authorization params db token ≡ (h, ok run)
      → (s : String) × (token ≡ some s)
        × (start_tx dates fails authorization params (start_time clock params.started_at) s db
            ≡ (h, ok run))
  unfolding start_with_token
  with_token_ok clock none r = cc
  with_token_ok clock (some s) r = (s, refl, r)

  with_token_error :
      (clock : Time) (token : Option String) {h : Handle} {e : Error}
      → start_with_token dates fails clock authorization params db token ≡ (h, err e)
      → h ≡ at_rest db
  unfolding start_with_token
  with_token_error clock none r = ground arith
  with_token_error clock (some s) r = elim (tx_error (start_time clock params.started_at) s r) [
    | inl e ↦ e
    | inr r' ↦ insert_error fails params _ s db _ r'
  ]

  checked_ok :
      (clock : Time) (token : Option String) (t : Fallible (Unit {0})) {h : Handle} {run : Run}
      → start_checked dates fails clock token authorization params db t ≡ (h, ok run)
      → (t ≡ ok tt)
        × (is_positive params.lease_duration ≡ true)
        × (start_with_token dates fails clock authorization params db token ≡ (h, ok run))
  unfolding start_checked
  checked_ok clock token (err e) r = cc
  checked_ok clock token (ok u) r = (refl, ground arith, ground arith)

  checked_error :
      (clock : Time) (token : Option String) (t : Fallible (Unit {0})) {h : Handle} {e : Error}
      → start_checked dates fails clock token authorization params db t ≡ (h, err e)
      → (h ≡ at_rest db)
        ⊎ (start_with_token dates fails clock authorization params db token ≡ (h, err e))
  unfolding start_checked
  checked_error clock token (err e) r = inl (ground arith)
  checked_error clock token (ok u) r = ground arith

  -- A start that fails leaves the committed tables as they were, and no transaction open.
  pub start_error :
      (clock : Time) (token : Option String) {h : Handle} {e : Error}
      → start_authorized dates fails clock token authorization params db ≡ (h, err e)
      → h ≡ at_rest db
  unfolding start_authorized
  start_error clock token r = elim (checked_error clock token _ r) [
    | inl e ↦ e
    | inr r' ↦ with_token_error clock token r'
  ]

  -- A success claims exactly one task and returns the run that it inserted.
  pub start_ok :
      (clock : Time) (token : Option String) {h : Handle} {run : Run}
      → start_authorized dates fails clock token authorization params db ≡ (h, ok run)
      → let at = start_time clock params.started_at in
        (transition params.expected_status TaskStatus.in_progress ≡ ok tt)
        × (is_positive params.lease_duration ≡ true)
        × (count_where (claims dates at authorization params db.runs) db.tasks ≡ 1)
        × ((s : String) × (run ≡ started_run params at s (suc db.run_seq))
            × (h ≡ at_rest (started_db dates authorization params at s db)))
  unfolding start_authorized
  start_ok clock token {run} r =
      let (allowed, lease, r1) = checked_ok clock token _ r in
      let (s, _, r2) = with_token_ok clock token r1 in
      let (n, r3) = tx_ok (start_time clock params.started_at) s r2 in
      let (e, f) = insert_ok fails params (start_time clock params.started_at) s db _ r3 in
      (allowed, lease, n, (s, e, rw (← e) f))
