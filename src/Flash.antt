-- ===== src/Flash.antt =====
-- The RAM-resident flashing helper, buildroot/packages/fwupdate/fwflash.c: partitions are erased,
-- written and compared, and restored from backups when a later one fails.
pub mod System
pub mod Device
pub mod Program
pub mod Plan
pub mod Only
pub mod Verified
pub mod Attempts
pub mod Rollback
pub mod Outcome
pub mod Safety
pub mod Ready
pub mod Fuel
pub mod Working
pub mod Writing
pub mod Success
mod Tests
mod Cell
