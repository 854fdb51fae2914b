-- ===== src/FindHdr.antt =====
-- The finder of headers in an image, buildroot/packages/findhdr/find_hdr.c.
pub mod Find
pub mod Sound
mod Tests
