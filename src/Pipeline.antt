-- ===== src/Pipeline.antt =====
-- crates/ohmcp-client/src/pipeline.rs: compression, encryption and cache references of payloads,
-- for both ends of a session. The lock of the cache is held only inside each operation.
pub mod RoundTrip
pub mod Tamper
use ohmcp.Base.{
  ◌++◌, ◌∷◌, List, false, true, Bool, ◌^◌, ◌*◌, ℕ, map_err, ok_or, ◌>>=◌, Option, none, some,
  Result, ok, err, if◌then◌else◌,
}
use Prim.Native.Nat.{bit_or}
use ohmcp.Base.Bytes.{Text, ascii, to_le_bytes}
use ohmcp.Core.MsgType.{MsgType, to_u8}
use ohmcp.Core.Frame.{
  Frame, FrameFlags, len_u32, compressed, encrypted, cache_ref, compressed_bit, encrypted_bit,
  cache_ref_bit,
}
use ohmcp.Cache.Compress.{Lz4, maybe_compress, maybe_decompress}
use ohmcp.Cache.ResultCache.{ResultCache, CacheKey, Walk, from_slice}
use ohmcp.Security.{SecurityError, auth_failed, decrypt_failed, access_denied}
use ohmcp.Security.Crypto.{Aead, SessionCipher, encrypt, decrypt}
use ohmcp.Cache.ResultCache
use ohmcp.Security.Crypto

pub record PayloadPipeline : Type 0 where
  pub cipher : Option SessionCipher
  pub cache : ResultCache

-- `Duration::from_secs(300)`, in nanoseconds.
abbrev pub cache_ttl : ℕ
cache_ttl = 300 * 10 ^ 9

abbrev pub new : PayloadPipeline
new = record { cipher = none; cache = ResultCache.new 4096 cache_ttl }

abbrev pub enable_encryption : List ℕ → List ℕ → PayloadPipeline → PayloadPipeline
enable_encryption prefix key p = record p { cipher = some (Crypto.new prefix key) }

abbrev pub encryption_enabled : PayloadPipeline → Bool
encryption_enabled p = elim p.cipher [ none ↦ false | some c ↦ true ]

abbrev pub aad : MsgType → ℕ → List ℕ
aad msg_type request_id = to_u8 msg_type ∷ to_le_bytes 8 request_id

-- `SecurityError::to_string`
abbrev pub security_text : SecurityError → Text
security_text auth_failed = ascii "authentication failed"
security_text decrypt_failed = ascii "decryption failed"
security_text (access_denied tool) = ascii "access denied for tool " ++ tool

abbrev pub frame_of : FrameFlags → MsgType → ℕ → List ℕ → Frame
frame_of flags msg_type request_id payload = record {
  header = record {
    flags = flags;
    msg_type = msg_type;
    request_id = request_id;
    payload_len = len_u32 payload;
  };
  payload = payload;
}

module _ (lz4 : Lz4) (aead : Aead) where
  -- The encryption of an outgoing payload, if there is a key: it sets its flag.
  unfoldable pub seal_payload :
      Option SessionCipher
      → FrameFlags
      → MsgType
      → ℕ
      → List ℕ
      → FrameFlags × List ℕ × Option SessionCipher
  seal_payload none flags msg_type request_id payload = (flags, payload, none)
  seal_payload (some c) flags msg_type request_id payload =
      let (sealed, c') = encrypt aead payload (aad msg_type request_id) c in
      (bit_or flags encrypted_bit, sealed, some c')

  unfoldable pub sealed_frame :
      FrameFlags → MsgType → ℕ → List ℕ → PayloadPipeline → Frame × PayloadPipeline
  sealed_frame flags msg_type request_id payload p =
      let (flags', sealed, cipher) = seal_payload p.cipher flags msg_type request_id payload in
      (frame_of flags' msg_type request_id sealed, record p { cipher = cipher })

  -- The frame, and the pipeline with the counter of its cipher moved on. The flags that the source
  -- returns beside the frame are those of its header.
  unfoldable pub wrap : MsgType → ℕ → List ℕ → PayloadPipeline → Frame × PayloadPipeline
  wrap msg_type request_id payload p =
      let (body, flag) = maybe_compress lz4 payload in
      sealed_frame (if flag then compressed_bit else 0) msg_type request_id body p

  unfoldable pub wrap_cache_ref : MsgType → ℕ → CacheKey → PayloadPipeline → Frame × PayloadPipeline
  wrap_cache_ref msg_type request_id key p = sealed_frame cache_ref_bit msg_type request_id key p

  unfoldable pub unseal_payload : Option SessionCipher → Frame → Result Text (List ℕ)
  unseal_payload none f =
      if encrypted f.header.flags
      then err (ascii "encrypted frame but no session key")
      else ok f.payload
  unseal_payload (some c) f =
      if encrypted f.header.flags
      then map_err security_text
          (decrypt aead f.payload (aad f.header.msg_type f.header.request_id) c)
      else ok f.payload

  -- A cache reference stands for what the local cache holds under it.
  unfoldable pub resolve_ref :
      ℕ → Option CacheKey → PayloadPipeline → Result Text (List ℕ) × PayloadPipeline
  resolve_ref now none p = (err (ascii "bad cache ref"), p)
  resolve_ref now (some key) p =
      let (value, cache) = ResultCache.get now key p.cache in
      (ok_or value (ascii "cache ref miss"), record p { cache = cache })

  unfoldable pub open_body :
      ℕ → Bool → Result Text (List ℕ) → PayloadPipeline → Result Text (List ℕ) × PayloadPipeline
  open_body now is_ref (err e) p = (err e, p)
  open_body now true (ok body) p = resolve_ref now (from_slice body) p
  open_body now false (ok body) p = (ok body, p)

  -- The payload of an incoming frame; a lookup in the cache changes the pipeline.
  unfoldable pub unwrap : ℕ → Frame → PayloadPipeline → Result Text (List ℕ) × PayloadPipeline
  unwrap now f p =
      open_body now (cache_ref f.header.flags)
        (unseal_payload p.cipher f >>= λ body.
          maybe_decompress lz4 body (compressed f.header.flags))
        p

module _ (walk : Walk) where
  unfoldable pub remember : ℕ → CacheKey → List ℕ → PayloadPipeline → PayloadPipeline
  remember now key value p = record p { cache = ResultCache.put walk now key value p.cache }

unfoldable pub cache_get : ℕ → CacheKey → PayloadPipeline → Option (List ℕ) × PayloadPipeline
cache_get now key p =
    let (value, cache) = ResultCache.get now key p.cache in (value, record p { cache = cache })

unfoldable pub cache_stats : PayloadPipeline → ℕ × ℕ
cache_stats p = (p.cache.hits, p.cache.misses)
