-- ===== src/Security.antt =====
-- crates/ohmcp-security: access control, the authentication of sessions and their encryption; and
-- the hexadecimal texts of crates/ohmcpd/src/server.rs and crates/ohmcp-client/src/lib.rs.
pub mod Acl
pub mod Auth
pub mod Crypto
pub mod Hex
use ohmcp.Base.Bytes.{Text}

-- crates/ohmcp-security/src/lib.rs
pub data SecurityError : Type 0 where
  auth_failed : SecurityError
  decrypt_failed : SecurityError
  access_denied : Text → SecurityError
