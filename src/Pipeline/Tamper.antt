-- ===== src/Pipeline/Tamper.antt =====
-- Frames that were changed on the way.
use ohmcp.Base.{
  true, Bool, inr, inl, refl, arith, List, false, ◌⊎◌, ◌≢◌, ◌∙◌, ap, sym, ◌≡◌, ◌<◌, ◌^◌, ℕ,
  ok-injective, length, none, some, ok, err, if◌then◌else◌,
}
use ohmcp.Base.Bytes.{ascii, to_le_bytes, from_le_bytes}
use ohmcp.Core.MsgType.{MsgType, to_u8, from_u8, from_u8-to_u8}
use ohmcp.Core.Frame.{Frame}
use ohmcp.Cache.Compress.{Lz4, maybe_compress, maybe_decompress, maybe_decompress-maybe_compress}
use ohmcp.Security.Crypto.{Aead, SessionCipher, Authentic}
use ohmcp.Security.Crypto.Laws.{decrypt_tampered}
use ohmcp.Pipeline.{
  PayloadPipeline, wrap, unwrap, seal_payload, sealed_frame, unseal_payload, open_body, aad,
  frame_of,
}

-- Messages of different types, or with different ids, have different associated data.
pub aad-injective :
    (t u : MsgType) (i j : ℕ) → i < 2 ^ 64 → j < 2 ^ 64 → aad t i ≡ aad u j → (t ≡ u) × (i ≡ j)
aad-injective t u i j hi hj e =
    let codes : to_u8 t ≡ to_u8 u = cc in
    let ids : to_le_bytes 8 i ≡ to_le_bytes 8 j = cc in
    let found : ok t ≡ from_u8 (to_u8 u) = sym (from_u8-to_u8 t) ∙ ap from_u8 codes in
    (ok-injective (found ∙ from_u8-to_u8 u), omega (arith, ap from_le_bytes ids))

-- The frame with its type and its id changed.
abbrev pub relabelled : MsgType → ℕ → Frame → Frame
relabelled u j f = record f { header = record (f.header) { msg_type = u; request_id = j } }

module _ (lz4 : Lz4) (aead : Aead) where
  aad-ne :
      (t u : MsgType) (i j : ℕ) → i < 2 ^ 64 → j < 2 ^ 64 → (t ≢ u) ⊎ (i ≢ j) → aad t i ≢ aad u j
  aad-ne t u i j hi hj (inl n) e = n (aad-injective t u i j hi hj e).0
  aad-ne t u i j hi hj (inr n) e = n (aad-injective t u i j hi hj e).1

  unseal_tampered :
      (c d : SessionCipher) (t u : MsgType) (i j : ℕ) (flag : Bool) (body : List ℕ)
      → Authentic aead
      → c.key ≡ d.key
      → length c.nonce_prefix ≡ 4
      → aad t i ≢ aad u j
      → let (flags, sealed, c') = seal_payload lz4 aead (some c) (if flag then 1 else 0) t i body in
        unseal_payload lz4 aead (some d) (relabelled u j (frame_of flags t i sealed))
        ≡ err (ascii "decryption failed")
  unfolding seal_payload unseal_payload
  unseal_tampered c d t u i j true body auth k n ne =
      rw (decrypt_tampered aead c d body (aad t i) (aad u j) auth k n refl refl ne)
  unseal_tampered c d t u i j false body auth k n ne =
      rw (decrypt_tampered aead c d body (aad t i) (aad u j) auth k n refl refl ne)

  -- A frame that an end with a key wrapped, and whose type or request id was changed on the way, is
  -- refused by an end with the same key.
  pub unwrap_tampered :
      (now : ℕ) (a b : PayloadPipeline) (c d : SessionCipher) (t u : MsgType) (i j : ℕ)
      (payload : List ℕ)
      → Authentic aead
      → a.cipher ≡ some c
      → b.cipher ≡ some d
      → c.key ≡ d.key
      → length c.nonce_prefix ≡ 4
      → i < 2 ^ 64
      → j < 2 ^ 64
      → (t ≢ u) ⊎ (i ≢ j)
      → unwrap lz4 aead now (relabelled u j (wrap lz4 aead t i payload a).0) b
        ≡ (err (ascii "decryption failed"), b)
  unfolding unwrap wrap sealed_frame open_body
  unwrap_tampered now a b c d t u i j payload auth ea eb k n hi hj ne =
      let body = (maybe_compress lz4 payload).0 in
      let flag = (maybe_compress lz4 payload).1 in
      let refused = unseal_tampered c d t u i j flag body auth k n (aad-ne t u i j hi hj ne) in
      rw (ea, eb, refused)

  -- A frame without the mark of encryption, under any type and id.
  unwrap_forged :
      (now : ℕ) (b : PayloadPipeline) (d : SessionCipher) (t u : MsgType) (i j : ℕ) (flag : Bool)
      (body payload : List ℕ)
      → b.cipher ≡ some d
      → maybe_decompress lz4 body flag ≡ ok payload
      → unwrap lz4 aead now (relabelled u j (frame_of (if flag then 1 else 0) t i body)) b
        ≡ (ok payload, b)
  unfolding unwrap unseal_payload open_body
  unwrap_forged now b d t u i j true body payload e h = rw e (rw h refl)
  unwrap_forged now b d t u i j false body payload e h = rw e (rw h refl)

  -- Who has no key can have an end that has one accept any payload: a frame that was wrapped without
  -- a key, compressed or not, is taken as that payload, also when its type and its request id were
  -- changed on the way.
  pub unwrap_plain :
      (now : ℕ) (a b : PayloadPipeline) (d : SessionCipher) (t u : MsgType) (i j : ℕ)
      (payload : List ℕ)
      → a.cipher ≡ none
      → b.cipher ≡ some d
      → unwrap lz4 aead now (relabelled u j (wrap lz4 aead t i payload a).0) b ≡ (ok payload, b)
  unfolding wrap sealed_frame seal_payload
  unwrap_plain now a b d t u i j payload ea eb =
      let (body, flag) = maybe_compress lz4 payload in
      rw ea (
        unwrap_forged now b d t u i j flag body payload eb
          (maybe_decompress-maybe_compress lz4 payload).0)
