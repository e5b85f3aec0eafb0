-- ===== src/Tests.antt =====
-- Runs of the model at concrete inputs, and the theorems at inputs that meet their hypotheses.
mod StoreRuns
mod AgentRuns
mod DomainRuns
mod RunnerRuns
mod RecoverRuns
mod SelectionRuns
mod AttemptRuns
mod SystemRuns
mod WorkRuns
mod MigrationRuns
mod FileRuns
mod OpenRuns
mod MainRuns
