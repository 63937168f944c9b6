-- ===== src/Server/Keeping.antt =====
-- crates/ohmcpd/src/server.rs: what every request leaves as it is: who the agent is, whether it is
-- authenticated, what it may do, and whether the session has a key.
use ohmcp.Core.Frame.{compressed, FrameFlags, compressed_bit, cache_ref_bit, cache_ref, Frame}
use ohmcp.Cache.Compress.{maybe_decompress, maybe_compress, Lz4}
use ohmcp.Pipeline.{
  unseal_payload, PayloadPipeline, wrap, wrap_cache_ref, unwrap, sealed_frame, seal_payload,
  open_body, resolve_ref, encryption_enabled,
}
use ohmcp.Cache.ResultCache.{CacheKey, from_slice}
use ohmcp.Security.Crypto.{SessionCipher, Aead}
use ohmcp.Base.{
  ◌>>=◌, ℕ, Bool, true, false, ◌≡◌, refl, ◌∙◌, Result, ok, err, Option, none, some, List,
  if◌then◌else◌,
}
use ohmcp.Base.Bytes.{Text}
use ohmcp.Core.MsgType.{MsgType}
use ohmcp.Server.Session.{Session, Next, goes_on, returned, failed, panicked}
use ohmcp.Pipeline

module _ {Value : Type 0} where
  pub record Keeps (s t : Session Value) : Type 0 where
    pub same_acl : t.shared.acl ≡ s.shared.acl
    pub same_token : t.shared.token ≡ s.shared.token
    pub same_flag : t.authenticated ≡ s.authenticated
    pub same_agent : t.agent_id ≡ s.agent_id
    pub same_key : encryption_enabled t.pipeline ≡ encryption_enabled s.pipeline

  pub Keeps-all : (s : Session Value) → Keeps s s
  Keeps-all s = record {
    same_acl = refl;
    same_token = refl;
    same_flag = refl;
    same_agent = refl;
    same_key = refl;
  }

  pub Keeps-then : {s t u : Session Value} → Keeps s t → Keeps t u → Keeps s u
  Keeps-then k l = record {
    same_acl = l.same_acl ∙ k.same_acl;
    same_token = l.same_token ∙ k.same_token;
    same_flag = l.same_flag ∙ k.same_flag;
    same_agent = l.same_agent ∙ k.same_agent;
    same_key = l.same_key ∙ k.same_key;
  }

  -- A predicate of the session with which a turn ends, however it ends.
  abbrev pub After : (Session Value → Type 0) → Next Value → Type 0
  After P (goes_on t) = P t
  After P (returned t) = P t
  After P (failed t) = P t
  After P (panicked t) = P t

  -- Only the pipeline changes, and it keeps its key.
  pub pipeline-Keeps :
      (s : Session Value) (p : PayloadPipeline)
      → encryption_enabled p ≡ encryption_enabled s.pipeline
      → Keeps s (record s { pipeline = p })
  pipeline-Keeps s p e = record {
    same_acl = refl;
    same_token = refl;
    same_flag = refl;
    same_agent = refl;
    same_key = e;
  }

module _ (lz4 : Lz4) (aead : Aead) where
  seal_payload_key :
      (c : Option SessionCipher) (flags : FrameFlags) (t : MsgType) (id : ℕ) (body : List ℕ)
      → encryption_enabled (record {
        cipher = (seal_payload lz4 aead c flags t id body).2;
        cache = (Pipeline.new).cache;
      })
        ≡ encryption_enabled (record { cipher = c; cache = (Pipeline.new).cache })
  unfolding seal_payload
  seal_payload_key none flags t id body = refl
  seal_payload_key (some c) flags t id body = refl

  pub wrap_key :
      (t : MsgType) (id : ℕ) (body : List ℕ) (p : PayloadPipeline)
      → encryption_enabled (wrap lz4 aead t id body p).1 ≡ encryption_enabled p
  unfolding wrap sealed_frame
  wrap_key t id body p =
      let (packed, flag) = maybe_compress lz4 body in
      seal_payload_key p.cipher (if flag then compressed_bit else 0) t id packed

  pub wrap_cache_ref_key :
      (t : MsgType) (id : ℕ) (body : List ℕ) (p : PayloadPipeline)
      → encryption_enabled (wrap_cache_ref lz4 aead t id body p).1 ≡ encryption_enabled p
  unfolding wrap_cache_ref sealed_frame
  wrap_cache_ref_key t id body p = seal_payload_key p.cipher cache_ref_bit t id body

  resolve_ref_key :
      (now : ℕ) (key : Option CacheKey) (p : PayloadPipeline)
      → encryption_enabled (resolve_ref lz4 aead now key p).1 ≡ encryption_enabled p
  unfolding resolve_ref
  resolve_ref_key now none p = refl
  resolve_ref_key now (some key) p = refl

  open_body_key :
      (now : ℕ) (is_ref : Bool) (r : Result Text (List ℕ)) (p : PayloadPipeline)
      → encryption_enabled (open_body lz4 aead now is_ref r p).1 ≡ encryption_enabled p
  unfolding open_body
  open_body_key now is_ref (err e) p = refl
  open_body_key now true (ok body) p = resolve_ref_key now (from_slice body) p
  open_body_key now false (ok body) p = refl

  pub unwrap_key :
      (now : ℕ) (f : Frame) (p : PayloadPipeline)
      → encryption_enabled (unwrap lz4 aead now f p).1 ≡ encryption_enabled p
  unfolding unwrap
  unwrap_key now f p =
      open_body_key now (cache_ref f.header.flags)
        (unseal_payload lz4 aead p.cipher f >>= λ body.
          maybe_decompress lz4 body (compressed f.header.flags))
        p
