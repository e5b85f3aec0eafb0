-- ===== src/Cli.antt =====
-- internal/cli and cmd/agent-inbox: the commands and the process.
pub mod Print
pub mod Table
pub mod Shell
pub mod Add
pub mod List
pub mod Show
pub mod Status
pub mod Serve
pub mod Work
pub mod Main
