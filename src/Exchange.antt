-- ===== src/Exchange.antt =====
-- The two ends of a session together: crates/ohmcp-client/src/lib.rs and crates/ohmcpd/src/server.rs.
pub mod Frames
pub mod Uplink
pub mod Downlink
pub mod Login
pub mod Again
pub mod Repeated
pub mod Busy
pub mod Listing
pub mod Calling
pub mod Serving
pub mod WholeCall
pub mod Codec
pub mod Exact
