-- ===== src/Web.antt =====
-- The pages for browsers: crates/server/src/web/pages.
pub mod Questions
pub mod Preview
pub mod Groups
pub mod Grouped
pub mod Grouping
pub mod Forms
pub mod Integers
pub mod Targets
pub mod Links
pub mod Encoded
pub mod Layout
pub mod Passwords
pub mod Resets
pub mod Requests
pub mod Decisions
pub mod Catalog
pub mod Services
pub mod Edits
