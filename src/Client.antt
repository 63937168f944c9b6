-- ===== src/Client.antt =====
-- crates/ohmcp-client/src/lib.rs: the client's end of a session.
pub mod State
pub mod Receive
pub mod Request
pub mod Connect
pub mod Methods
pub mod Mail
pub mod Notices
pub mod Routing
pub mod Kept
pub mod Multiplex
pub mod Sorted
