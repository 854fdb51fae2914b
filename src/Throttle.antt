-- ===== src/Throttle.antt =====
-- The delays after failed logins, buildroot/packages/configd/websocket.c from auth_bucket_for to
-- auth_record_success.
pub mod Buckets
pub mod Slots
pub mod Refine
pub mod Run
pub mod Holes
mod Tests
