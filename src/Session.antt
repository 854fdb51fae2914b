-- ===== src/Session.antt =====
-- The table of web sessions, buildroot/packages/configd/session.c.
pub mod Table
pub mod Compare
pub mod Revocation
pub mod Creation
mod Tests
