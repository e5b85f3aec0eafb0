-- ===== src/Agent/Commit.antt =====
-- internal/agent/agent.go: commitState, over a host that stands for the context, the fence, the sink
-- of commits, the session file and the clock.
use agent_inbox_question.Base.{
  ℕ, String, Time, Bool, true, false, ◌&&◌, not, Option, none, some, if◌then◌else◌, is_some, ok,
  err,
}
use agent_inbox_question.Domain.Errors.{Fallible}
use agent_inbox_question.Agent.Session.{SessionState, HaltReason, Json}

pub record Event : Type 0 where
  pub step : ℕ
  pub step_name : String
  pub output : String
  pub tokens_used : ℕ

pub record StateCommit : Type 0 where
  pub checkpoint : String
  pub tokens_used : ℕ
  pub event : Option Event

-- What the loop uses of the world `W` around it: `ctx.Done()` as the loop looks at it, the timer
-- (true when the context ends first), the optional fence and sink, the session file and the clock.
pub record Host (W : Type 0) : Type 0 where
  pub json : Json
  pub no_delay : Bool
  pub cancel_text : String
  pub canceled : W → Bool × W
  pub sleep : W → Bool × W
  pub fence : Option (W → Fallible (Unit {0}) × W)
  pub commit : Option (StateCommit → W → Fallible (Unit {0}) × W)
  pub persist : SessionState → W → Fallible (Unit {0}) × W
  pub now : W → Time × W

abbrev pub is_terminal : HaltReason → Bool
is_terminal HaltReason.unset = false
is_terminal HaltReason.running = false
is_terminal _ = true

module _ {W : Type 0} (host : Host W) where
  open host use {json, persist, now}

  -- The time of a terminal state is set once.
  unfoldable pub stamp : SessionState → W → SessionState × W
  stamp s w =
      if is_terminal s.attempt_halt_reason && not (is_some s.attempt_halted_at)
      then (record s { attempt_halted_at = some (now w).0 }, (now w).1)
      else (s, w)

  abbrev pub full_commit : SessionState → Option Event → StateCommit
  full_commit s event = record {
    checkpoint = json.marshal s;
    tokens_used = s.tokens_used;
    event = event;
  }

  -- A call of the sink, if there is one.
  abbrev pub call_commit :
      Option (StateCommit → W → Fallible (Unit {0}) × W) → StateCommit → W → Fallible (Unit {0}) × W
  call_commit none change w = (ok tt, w)
  call_commit (some f) change w = f change w

  -- The end of commitState without a fence: the file first, the sink afterwards.
  unfoldable pub persist_then_commit :
      SessionState → Option Event → W → Fallible (Unit {0}) × SessionState × W
  persist_then_commit s event w =
      let (r, w') = persist s w in
      elim r [
        | err e ↦ (err e, s, w')
        | ok _ ↦ let c = call_commit host.commit (full_commit s event) w' in (c.0, s, c.1)
      ]

  -- With a fence: the sink first, and a refusal puts the previous state back.
  unfoldable pub commit_then_persist :
      SessionState → SessionState → Option Event → W → Fallible (Unit {0}) × SessionState × W
  commit_then_persist previous s event w =
      let (r, w') = call_commit host.commit (full_commit s event) w in
      elim r [ err e ↦ (err e, previous, w') | ok _ ↦ let f = persist s w' in (f.0, s, f.1) ]

  unfoldable pub commit_state :
      SessionState → SessionState → Option Event → W → Fallible (Unit {0}) × SessionState × W
  unfolding stamp
  commit_state previous s event w =
      let (s', w') = stamp s w in
      if is_some host.fence
      then commit_then_persist previous s' event w'
      else persist_then_commit s' event w'
