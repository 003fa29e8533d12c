-- ===== src/Seed.antt =====
-- crates/server/src/catalog_seed.rs: the starter catalog.
pub mod Graphs
pub mod Valid
pub mod Tickets
pub mod Run
pub mod Loaded
pub mod Loads
pub mod Once
pub mod Stuck
