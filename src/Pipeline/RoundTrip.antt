-- ===== src/Pipeline/RoundTrip.antt =====
-- What one end wraps the other end unwraps, and what it refuses.
use ohmcp.Base.{
  false, true, Bool, ap, arith, ◌∙◌, ok_or, List, inr, inl, ◌⊎◌, refl, ◌≡◌, ℕ, length, Option, none,
  some, ok, if◌then◌else◌, ◌>>=◌,
}
use ohmcp.Core.Frame.{compressed, FrameFlags, cache_ref}
use ohmcp.Base.Bytes.{ascii}
use ohmcp.Core.MsgType.{MsgType}
use ohmcp.Cache.Compress.{Lz4, maybe_compress, maybe_decompress, maybe_decompress-maybe_compress}
use ohmcp.Cache.ResultCache.{CacheKey, from_slice}
use ohmcp.Security.Crypto.{Aead, SessionCipher}
use ohmcp.Security.Crypto.Laws.{decrypt-encrypt}
use ohmcp.Pipeline.{
  PayloadPipeline, wrap, unwrap, wrap_cache_ref, seal_payload, sealed_frame, unseal_payload,
  resolve_ref, open_body, aad, frame_of,
}
use ohmcp.Cache.ResultCache

-- The two ends of a session: neither has a key, or both have the same.
pub data Agree : Option SessionCipher → Option SessionCipher → Type 0 where
  plain : Agree none none
  keyed :
      {a b : SessionCipher} → a.key ≡ b.key → length a.nonce_prefix ≡ 4 → Agree (some a) (some b)

module _ (lz4 : Lz4) (aead : Aead) where
  -- The flags that the program gives to a payload before it is encrypted.
  abbrev SenderFlags : FrameFlags → Type 0
  SenderFlags flags = (flags ≡ 0) ⊎ (flags ≡ 1) ⊎ (flags ≡ 4)

  unseal-seal :
      {a b : Option SessionCipher} (flags : FrameFlags) (t : MsgType) (id : ℕ) (body : List ℕ)
      → Agree a b
      → SenderFlags flags
      → let (flags', sealed, c) = seal_payload lz4 aead a flags t id body in
        (unseal_payload lz4 aead b (frame_of flags' t id sealed) ≡ ok body)
        × (compressed flags' ≡ compressed flags)
        × (cache_ref flags' ≡ cache_ref flags)
  unfolding seal_payload unseal_payload
  unseal-seal flags t id body plain (inl e) = rw e (refl, refl, refl)
  unseal-seal flags t id body plain (inr (inl e)) = rw e (refl, refl, refl)
  unseal-seal flags t id body plain (inr (inr e)) = rw e (refl, refl, refl)
  unseal-seal flags t id body (keyed {a} {b} k n) (inl e) =
      rw e (rw (decrypt-encrypt aead a b body (aad t id) k n).0 (refl, refl, refl))
  unseal-seal flags t id body (keyed {a} {b} k n) (inr (inl e)) =
      rw e (rw (decrypt-encrypt aead a b body (aad t id) k n).0 (refl, refl, refl))
  unseal-seal flags t id body (keyed {a} {b} k n) (inr (inr e)) =
      rw e (rw (decrypt-encrypt aead a b body (aad t id) k n).0 (refl, refl, refl))

  unwrap-sealed_frame :
      (now : ℕ) (a b : PayloadPipeline) (flags : FrameFlags) (t : MsgType) (id : ℕ) (body : List ℕ)
      → Agree a.cipher b.cipher
      → SenderFlags flags
      → unwrap lz4 aead now (sealed_frame lz4 aead flags t id body a).0 b
        ≡ open_body lz4 aead now (cache_ref flags) (maybe_decompress lz4 body (compressed flags)) b
  unfolding unwrap sealed_frame
  unwrap-sealed_frame now a b flags t id body agree s =
      let (opened, c, r) = unseal-seal flags t id body agree s in
      λ i. open_body lz4 aead now (r i) (opened i >>= λ x. maybe_decompress lz4 x (c i)) b

  -- The flags of a payload that was or was not compressed.
  flags_of :
      (flag : Bool)
      → let flags : ℕ = if flag then 1 else 0 in
        SenderFlags flags × (compressed flags ≡ flag) × (cache_ref flags ≡ false)
  flags_of true = (inr (inl refl), refl, refl)
  flags_of false = (inl refl, refl, refl)

  -- What one end of a session wraps, the other end unwraps to the same bytes; its cache is not
  -- touched.
  pub unwrap-wrap :
      (now : ℕ) (a b : PayloadPipeline) (t : MsgType) (id : ℕ) (payload : List ℕ)
      → Agree a.cipher b.cipher
      → unwrap lz4 aead now (wrap lz4 aead t id payload a).0 b ≡ (ok payload, b)
  unfolding wrap
  unwrap-wrap now a b t id payload agree =
      let body = (maybe_compress lz4 payload).0 in
      let flag = (maybe_compress lz4 payload).1 in
      let (sender, c, r) = flags_of flag in
      unwrap-sealed_frame now a b (if flag then 1 else 0) t id body agree sender
      ∙ (λ i. open_body lz4 aead now (r i) (maybe_decompress lz4 body (c i)) b)
      ∙ ap (λ x. open_body lz4 aead now false x b) (maybe_decompress-maybe_compress lz4 payload).0
      ∙ unfold open_body in refl

  -- A cache reference comes to what the receiver's cache holds under the key; if it holds nothing
  -- fresh, that is an error.
  pub unwrap-wrap_cache_ref :
      (now : ℕ) (a b : PayloadPipeline) (t : MsgType) (id : ℕ) (key : CacheKey)
      → Agree a.cipher b.cipher
      → length key ≡ 32
      → unwrap lz4 aead now (wrap_cache_ref lz4 aead t id key a).0 b ≡ (
        ok_or (ResultCache.get now key b.cache).0 (ascii "cache ref miss"),
        record b { cache = (ResultCache.get now key b.cache).1 },
      )
  unfolding wrap_cache_ref open_body resolve_ref maybe_decompress from_slice
  unwrap-wrap_cache_ref now a b t id key agree l =
      unwrap-sealed_frame now a b 4 t id key agree (inr (inr refl)) ∙ ground arith
