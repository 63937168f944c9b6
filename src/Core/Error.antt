-- ===== src/Core/Error.antt =====
-- crates/ohmcp-core/src/lib.rs: the error type of the core layer.
use ohmcp.Base.{ℕ}
use ohmcp.Base.Bytes.{Text}

-- `Json` wraps an error of serde_json, of which the program reads only the text.
pub data CoreError : Type 0 where
  bad_magic : CoreError
  bad_version : ℕ → CoreError
  frame_too_large : ℕ → CoreError
  incomplete : CoreError
  codec : Text → CoreError
  json : Text → CoreError
