-- ===== src/Auth.antt =====
-- crates/server/src/auth.rs and crates/server/src/routes/auth.rs: passwords, refresh tokens and
-- password resets.
pub mod Store
pub mod Tokens
pub mod Routes
pub mod Spent
pub mod Reset
pub mod Concurrent
