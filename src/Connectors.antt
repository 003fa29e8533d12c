-- ===== src/Connectors.antt =====
-- crates/connectors/src: the field mapping and the interface to ticketing systems.
pub mod FieldMapping
pub mod Dispatch
