-- ===== src/Exchange/Frames.antt =====
-- What a pipeline's frames are not, and what frames without flags stand for.
use ohmcp.Core.Frame.{
  cacheable_bit, Frame, shm_ref, encrypted, compressed, cache_ref, cacheable, compressed_bit,
}
use Prim.Native.Nat.{bit_or}
use ohmcp.Server.Calls.{set_flags}
use ohmcp.Base.{
  ◌∙◌, ℕ, Bool, true, false, ◌≡◌, refl, List, Option, none, some, ok, if◌then◌else◌, ◌>>=◌,
}
use ohmcp.Core.MsgType.{MsgType}
use ohmcp.Cache.Compress.{Lz4, maybe_compress, maybe_decompress}
use ohmcp.Security.Crypto.{Aead, SessionCipher}
use ohmcp.Pipeline.{
  PayloadPipeline, wrap, unwrap, sealed_frame, seal_payload, unseal_payload, open_body,
}

module _ (lz4 : Lz4) (aead : Aead) where
  sealed_flags :
      (c : Option SessionCipher) (b : Bool) (t : MsgType) (id : ℕ) (body : List ℕ)
      → let flags = (seal_payload lz4 aead c (if b then compressed_bit else 0) t id body).0 in
        (shm_ref flags ≡ false) × (cacheable flags ≡ false) × (cache_ref flags ≡ false)
  unfolding seal_payload
  sealed_flags none true t id body = (refl, refl, refl)
  sealed_flags none false t id body = (refl, refl, refl)
  sealed_flags (some c) true t id body = (refl, refl, refl)
  sealed_flags (some c) false t id body = (refl, refl, refl)

  -- A frame that `wrap` makes is no reference, and says what it was made for.
  pub wrap_header :
      (t : MsgType) (id : ℕ) (payload : List ℕ) (p : PayloadPipeline)
      → let f = (wrap lz4 aead t id payload p).0 in
        (shm_ref f.header.flags ≡ false)
        × (cacheable f.header.flags ≡ false)
        × (cache_ref f.header.flags ≡ false)
        × (f.header.msg_type ≡ t)
        × (f.header.request_id ≡ id)
  unfolding wrap sealed_frame
  wrap_header t id payload p =
      let (body, flag) = maybe_compress lz4 payload in
      let (a, b, c) = sealed_flags p.cipher flag t id body in (a, b, c, refl, refl)

  unseal_none :
      (c : Option SessionCipher) (f : Frame)
      → encrypted f.header.flags ≡ false
      → unseal_payload lz4 aead c f ≡ ok f.payload
  unfolding unseal_payload
  unseal_none none f e = rw e
  unseal_none (some c) f e = rw e

  -- A payload that is neither encrypted nor compressed, and no reference, is taken as it is.
  pub unwrap_bare :
      (now : ℕ) (f : Frame) (p : PayloadPipeline)
      → encrypted f.header.flags ≡ false
      → compressed f.header.flags ≡ false
      → cache_ref f.header.flags ≡ false
      → unwrap lz4 aead now f p ≡ (ok f.payload, p)
  unfolding unwrap open_body maybe_decompress
  unwrap_bare now f p e c r = rw (unseal_none p.cipher f e, c, r)

  -- The mark that a result may be stored changes nothing else.
  marked_flags :
      (c : Option SessionCipher) (b marked : Bool) (t : MsgType) (id : ℕ) (body : List ℕ)
      → let flags = (seal_payload lz4 aead c (if b then compressed_bit else 0) t id body).0 in
        let flags' = bit_or flags (if marked then cacheable_bit else 0) in
        (shm_ref flags' ≡ false)
        × (cacheable flags' ≡ marked)
        × (cache_ref flags' ≡ cache_ref flags)
        × (encrypted flags' ≡ encrypted flags)
        × (compressed flags' ≡ compressed flags)
  unfolding seal_payload
  marked_flags none true true t id body = (refl, refl, refl, refl, refl)
  marked_flags none false true t id body = (refl, refl, refl, refl, refl)
  marked_flags (some c) true true t id body = (refl, refl, refl, refl, refl)
  marked_flags (some c) false true t id body = (refl, refl, refl, refl, refl)
  marked_flags none true false t id body = (refl, refl, refl, refl, refl)
  marked_flags none false false t id body = (refl, refl, refl, refl, refl)
  marked_flags (some c) true false t id body = (refl, refl, refl, refl, refl)
  marked_flags (some c) false false t id body = (refl, refl, refl, refl, refl)

  unseal_same :
      (c : Option SessionCipher) (f g : Frame)
      → g.payload ≡ f.payload
      → g.header.msg_type ≡ f.header.msg_type
      → g.header.request_id ≡ f.header.request_id
      → encrypted g.header.flags ≡ encrypted f.header.flags
      → unseal_payload lz4 aead c g ≡ unseal_payload lz4 aead c f
  unfolding unseal_payload
  unseal_same none f g p t i e = rw (e, p)
  unseal_same (some c) f g p t i e = rw (e, p, t, i)

  -- Only these parts of a frame are looked at.
  unwrap_same :
      (now : ℕ) (f g : Frame) (p : PayloadPipeline)
      → g.payload ≡ f.payload
      → g.header.msg_type ≡ f.header.msg_type
      → g.header.request_id ≡ f.header.request_id
      → encrypted g.header.flags ≡ encrypted f.header.flags
      → compressed g.header.flags ≡ compressed f.header.flags
      → cache_ref g.header.flags ≡ cache_ref f.header.flags
      → unwrap lz4 aead now g p ≡ unwrap lz4 aead now f p
  unfolding unwrap
  unwrap_same now f g p a t i e c r = λ k.
      open_body lz4 aead now (r k)
        (unseal_same p.cipher f g a t i e k >>= λ body. maybe_decompress lz4 body (c k)) p

  -- What was wrapped, with the mark or without it, is unwrapped as before.
  pub unwrap_marked :
      (now : ℕ) (marked : Bool) (t : MsgType) (id : ℕ) (payload : List ℕ) (a p : PayloadPipeline)
      → let f = set_flags (if marked then cacheable_bit else 0) (wrap lz4 aead t id payload a).0 in
        (shm_ref f.header.flags ≡ false)
        × (cacheable f.header.flags ≡ marked)
        × (cache_ref f.header.flags ≡ false)
        × (unwrap lz4 aead now f p ≡ unwrap lz4 aead now (wrap lz4 aead t id payload a).0 p)
  unfolding wrap sealed_frame
  unwrap_marked now marked t id payload a p =
      let (body, flag) = maybe_compress lz4 payload in
      let (s, m, r, e, c) = marked_flags a.cipher flag marked t id body in
      (
        s,
        m,
        r ∙ (sealed_flags a.cipher flag t id body).2,
        unwrap_same now _ _ p refl refl refl e c r,
      )
