-- ===== src/Portstats.antt =====
-- The port counters that Click prints in protobuf, buildroot/packages/configd/portstats.c.
pub mod Varint
pub mod Decode
pub mod Counted
pub mod RoundTrip
pub mod Fuel
mod Tests
