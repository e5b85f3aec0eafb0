-- ===== src/Agent/Run/Machine/Rounds.antt =====
-- internal/agent/agent.go, run: the rounds of the loop and their causes.
use agent_inbox_question.Base.{ℕ, Option}
use agent_inbox_question.Domain.Errors.{Fallible}
use agent_inbox_question.Agent.Session.{SessionState}
use agent_inbox_question.Agent.Commit.{Host}
use agent_inbox_question.Agent.Run.{Outcome}
use agent_inbox_question.Agent.Run.Machine.Causes.{Makes}

module _ {W : Type 0} (host : Host W) (fail_at : ℕ) (s : SessionState) (w : W) where
  Made : Option Outcome → Fallible (Unit {0}) × SessionState × W → Type 0
  Made k x = Makes host fail_at s w k x.0 x.1 x.2
