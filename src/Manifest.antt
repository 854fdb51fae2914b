-- ===== src/Manifest.antt =====
-- The order on version texts of buildroot/packages/fwupdate/fwmanifest.c.
pub mod Version
pub mod Antisymmetry
pub mod Fuel
mod Tests
