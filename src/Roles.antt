-- ===== src/Roles.antt =====
-- The roles of accounts, buildroot/packages/configd/roles.c.
pub mod Fields
pub mod Account
pub mod Capability
pub mod Lines
pub mod GroupLines
pub mod Grant
pub mod Members
mod Tests
