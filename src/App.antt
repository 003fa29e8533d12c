-- ===== src/App.antt =====
-- The whole server (crates/server/src/state.rs): accounts, administration and the ways to sign in,
-- over one state that the workflows, authentication and single sign-on share.
pub mod State
pub mod Users
pub mod Departments
pub mod Settings
pub mod Audit
pub mod Accounts
pub mod Provisioned
pub mod Entrances
pub mod Admin
pub mod Locked
