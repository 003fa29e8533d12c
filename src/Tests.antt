-- ===== src/Tests.antt =====
-- A small installation, and the theorems applied to it.
mod Data
mod Engine
mod Approvals
mod Server
mod Fields
mod Auth
mod Sso
mod Seed
mod Entries
mod Catalog
mod App
mod Web
