-- ===== src/Poe.antt =====
-- The PoE controller library, buildroot/packages/pd690xx/libpd690xx.c and libpd690xx.h.
pub mod Bus
pub mod Chips
pub mod Port
pub mod Registers
pub mod Able
pub mod Mode
pub mod Separate
mod Tests
