-- ===== src/Button.antt =====
-- The front-panel button daemon, buildroot/packages/postmerkos-hardware/buttond.c.
pub mod Policy
pub mod Loop
pub mod Invariant
pub mod Hold
pub mod Press
pub mod Bounds
mod Tests
