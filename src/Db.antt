-- ===== src/Db.antt =====
-- crates/db/src: the tables that the program keeps, and its repositories over them.
pub mod Table
pub mod World
pub mod Users
pub mod Catalog
pub mod Definitions
pub mod Instances
pub mod Approvals
pub mod Tickets
pub mod Slugs
