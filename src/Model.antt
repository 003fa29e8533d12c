-- ===== src/Model.antt =====
-- crates/model/src: the shared domain types.
pub mod User
pub mod Workflow
pub mod Instance
pub mod Approval
pub mod Ticket
pub mod Catalog
pub mod SqlText
pub mod TargetTime
