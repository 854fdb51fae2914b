-- ===== src/Auth.antt =====
-- Accounts and passwords, buildroot/packages/configd/auth.c.
pub mod Accounts
pub mod Verify
pub mod Equal
pub mod Lines
pub mod Proof
pub mod Manage
pub mod Groups
pub mod Users
pub mod Change
pub mod Lifecycle
mod Tests
