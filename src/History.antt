-- ===== src/History.antt =====
-- What no run of the server undoes: rows stay, their identifying columns stay, and a decided
-- approval is final (crates/db/src/repositories, crates/approvals/src, crates/server/src).
pub mod Rows
pub mod Evolves
pub mod Writes
pub mod Repositories
pub mod Approvals
pub mod Orchestrator
pub mod Requests
pub mod Polls
