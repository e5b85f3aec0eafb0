-- ===== src/Agent.antt =====
-- internal/agent/agent.go: the simulated agent, its plan, its session and the loop that drives it.
pub mod Plan
pub mod Session
pub mod File
pub mod Commit
pub mod Run
