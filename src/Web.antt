-- ===== src/Web.antt =====
-- The connections of the web frontend, the upload of a firmware image and its validation,
-- buildroot/packages/configd/websocket.c.
pub mod State
pub mod Job
pub mod Gate
pub mod Upload
pub mod Serve
pub mod Log
pub mod Sound
pub mod Run
pub mod Admit
pub mod Deliver
mod Tests
