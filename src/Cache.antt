-- ===== src/Cache.antt =====
-- crates/ohmcp-cache: the result cache and the compression of payloads.
pub mod Compress
pub mod ResultCache
