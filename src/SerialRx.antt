-- ===== src/SerialRx.antt =====
-- buildroot/packages/fwupdate/fwserialrx.c (and its copy fwupdate/fwserialrx.c): the receiver of
-- the PMOSUART/1 framed Base64 firmware transfer.
pub mod Fields
pub mod Crc
pub mod Base64
pub mod Object
pub mod End
pub mod Frame
pub mod Invariant
pub mod Safety
pub mod Progress
pub mod Session
mod Tests
