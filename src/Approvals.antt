-- ===== src/Approvals.antt =====
-- crates/approvals/src: approver resolution, the approval service and the expiry poller.
pub mod Resolution
pub mod Service
pub mod Poller
pub mod Decide
pub mod Race
pub mod Resolved
pub mod Requested
