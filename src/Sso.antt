-- ===== src/Sso.antt =====
-- crates/server/src/sso.rs: the state of single sign-on.
pub mod Service
pub mod Login
pub mod Handoff
pub mod Logins
