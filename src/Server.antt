-- ===== src/Server.antt =====
-- crates/ohmcpd: the daemon.
pub mod Tools
pub mod Session
pub mod Login
pub mod Handlers
pub mod Calls
pub mod Dispatch
pub mod Accept
pub mod Builtin
pub mod Keeping
pub mod Requests
pub mod Turns
pub mod Access
pub mod Reach
pub mod Promises
pub mod Entry
pub mod Answered
