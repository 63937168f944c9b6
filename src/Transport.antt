-- ===== src/Transport.antt =====
-- crates/ohmcp-transport: framed reading and writing, the shared-memory ring, soft-bus sessions.
pub mod Stream
pub mod Softbus
pub mod Shm
