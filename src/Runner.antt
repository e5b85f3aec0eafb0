-- ===== src/Runner.antt =====
-- internal/runner/runner.go: from an attempt's checkpoint to its terminal writes, recovery of an
-- expired attempt, and what a resume prepares.
pub mod Terminalize
pub mod Recover
pub mod Resume
pub mod World
pub mod Attempt
pub mod Launch
