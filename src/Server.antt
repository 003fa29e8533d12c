-- ===== src/Server.antt =====
-- crates/server/src: the errors of the API and the orchestration of workflows.
pub mod Error
pub mod Env
pub mod Orchestrator
pub mod Routes
pub mod Requests
pub mod AtRest
pub mod Replies
pub mod Loop
pub mod Opened
pub mod InWorkflow
pub mod Submitted
pub mod Entries
pub mod Rests
pub mod NewTicket
pub mod Dispatched
pub mod Offers
