-- ===== src/Core.antt =====
-- crates/ohmcp-core: the frame format, the message model and the bridge to JSON-RPC.
pub mod Error
pub mod Json
pub mod Message
pub mod MsgType
pub mod Frame
pub mod Rpc
