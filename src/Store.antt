-- ===== src/Store.antt =====
-- internal/store: the SQLite tables and the repositories over them.
pub mod Table
pub mod Order
pub mod Database
pub mod Migrations
pub mod Open
pub mod Progress
pub mod Finish
pub mod Start
pub mod Candidate
pub mod Invariant
pub mod Fencing
pub mod System
pub mod Selection
pub mod Tasks
pub mod Runs
pub mod Comments
pub mod Continuations
