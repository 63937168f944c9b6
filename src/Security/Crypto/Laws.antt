-- ===== src/Security/Crypto/Laws.antt =====
-- What a session's cipher guarantees.
use ohmcp.Security.Crypto.{after, Aead, SessionCipher, encrypt, decrypt, nonce, Authentic}
use ohmcp.Base.{
  ◌++◌, ◌∷◌, ◌≢◌, ◌∙◌, ap, sym, refl, ◌^◌, drop_all, take_all, drop, take, arith, [], List, ◌≡◌,
  ◌<◌, ◌+◌, ℕ, err, ok, length-append, length, ◌⊎◌, inl, inr,
}
use ohmcp.Base.Bytes.{to_le_bytes, from_le_bytes}
use ohmcp.Security.{decrypt_failed}

module _ (aead : Aead) where
  length-nonce : (c : SessionCipher) → length c.nonce_prefix ≡ 4 → length (nonce c) ≡ 12
  length-nonce c h = omega (arith, length-append c.nonce_prefix (to_le_bytes 8 c.nonce_counter))

  -- What one end of a session encrypts the other end decrypts, whatever the prefix and the counter
  -- of either; the ciphertext is 28 bytes longer.
  pub decrypt-encrypt :
      (a b : SessionCipher) (p aad : List ℕ)
      → a.key ≡ b.key
      → length a.nonce_prefix ≡ 4
      → (decrypt aead (encrypt aead p aad a).0 aad b ≡ ok p)
        × (length (encrypt aead p aad a).0 ≡ length p + 28)
  unfolding decrypt encrypt
  decrypt-encrypt a b p aad k h =
      let sealed = aead.seal a.key (nonce a) aad p in
      let n = length-nonce a h in
      let front : take 12 (nonce a ++ sealed) ≡ nonce a =
        ap (λ m. take m (nonce a ++ sealed)) (sym n) ∙ take_all (nonce a) sealed in
      let back : drop 12 (nonce a ++ sealed) ≡ sealed =
        ap (λ m. drop m (nonce a ++ sealed)) (sym n) ∙ drop_all (nonce a) sealed in
      let len : length (nonce a ++ sealed) ≡ length p + 28 =
        omega (arith, n, aead.tag a.key (nonce a) aad p, length-append (nonce a) sealed) in
      (ground (arith, front, back, len, k, aead.opens a.key (nonce a) aad p), len)

  -- A ciphertext that is shorter than its nonce and tag is refused.
  pub decrypt_short :
      (c : SessionCipher) (d aad : List ℕ)
      → length d < 28
      → decrypt aead d aad c ≡ err decrypt_failed
  unfolding decrypt
  decrypt_short c d aad h = ground arith

  -- A ciphertext that comes with other associated data than it was made with is refused.
  pub decrypt_tampered :
      (a b : SessionCipher) (p x y : List ℕ)
      → Authentic aead
      → a.key ≡ b.key
      → length a.nonce_prefix ≡ 4
      → length x ≡ 9
      → length y ≡ 9
      → x ≢ y
      → decrypt aead (encrypt aead p x a).0 y b ≡ err decrypt_failed
  unfolding decrypt encrypt
  decrypt_tampered a b p x y auth k h lx ly ne =
      let sealed = aead.seal a.key (nonce a) x p in
      let n = length-nonce a h in
      let front : take 12 (nonce a ++ sealed) ≡ nonce a =
        ap (λ m. take m (nonce a ++ sealed)) (sym n) ∙ take_all (nonce a) sealed in
      let back : drop 12 (nonce a ++ sealed) ≡ sealed =
        ap (λ m. drop m (nonce a ++ sealed)) (sym n) ∙ drop_all (nonce a) sealed in
      ground (arith, front, back, k, auth a.key (nonce a) x y p lx ly ne)

  after-counter :
      (ms : List (List ℕ × List ℕ)) (c : SessionCipher)
      → c.nonce_counter + length ms < 2 ^ 64
      → ((after aead ms c).nonce_counter ≡ c.nonce_counter + length ms)
        × ((after aead ms c).nonce_prefix ≡ c.nonce_prefix)
        × ((after aead ms c).key ≡ c.key)
  unfolding after encrypt
  after-counter [] c h = (omega arith, refl, refl)
  after-counter ((p, aad) ∷ ms) c h =
      let (n, q, k) = after-counter ms (encrypt aead p aad c).1 (omega arith) in
      (omega (arith, n), q, k)

  -- Nonces with the same bytes have the same prefix and the same counter.
  nonce-injective :
      (c d : SessionCipher)
      → length c.nonce_prefix ≡ 4
      → length d.nonce_prefix ≡ 4
      → c.nonce_counter < 2 ^ 64
      → d.nonce_counter < 2 ^ 64
      → nonce c ≡ nonce d
      → (c.nonce_prefix ≡ d.nonce_prefix) × (c.nonce_counter ≡ d.nonce_counter)
  nonce-injective c d lc ld hc hd e =
      let x = to_le_bytes 8 c.nonce_counter in
      let y = to_le_bytes 8 d.nonce_counter in
      let front : c.nonce_prefix ≡ d.nonce_prefix =
        sym (ap (λ m. take m (nonce c)) (sym lc) ∙ take_all c.nonce_prefix x)
        ∙ ap (take 4) e
        ∙ ap (λ m. take m (nonce d)) (sym ld)
        ∙ take_all d.nonce_prefix y in
      let back : x ≡ y =
        sym (ap (λ m. drop m (nonce c)) (sym lc) ∙ drop_all c.nonce_prefix x)
        ∙ ap (drop 4) e
        ∙ ap (λ m. drop m (nonce d)) (sym ld)
        ∙ drop_all d.nonce_prefix y in
      (front, omega (arith, ap from_le_bytes back))

  -- The two ends of a session, or one end at two times: what either encrypts after up to 2 ^ 64
  -- messages is a nonce followed by the text that is sealed under its key and that nonce, and the
  -- two nonces differ, if the ends drew different prefixes or the numbers of messages before differ.
  pub nonce_unique :
      (ms ns : List (List ℕ × List ℕ)) (p x q y : List ℕ) (c d : SessionCipher)
      → length c.nonce_prefix ≡ 4
      → length d.nonce_prefix ≡ 4
      → c.nonce_counter ≡ 0
      → d.nonce_counter ≡ 0
      → length ms < 2 ^ 64
      → length ns < 2 ^ 64
      → (c.nonce_prefix ≢ d.nonce_prefix) ⊎ (length ms ≢ length ns)
      → (m : List ℕ) × (n : List ℕ) × ((encrypt aead p x (after aead ms c)).0
          ≡ m ++ aead.seal c.key m x p)
        × ((encrypt aead q y (after aead ns d)).0 ≡ n ++ aead.seal d.key n y q)
        × (m ≢ n)
  unfolding encrypt
  nonce_unique ms ns p x q y c d lc ld zc zd hm hn differ =
      let c' = after aead ms c in
      let d' = after aead ns d in
      let (m, fm, km) = after-counter ms c (omega arith) in
      let (n, fn, kn) = after-counter ns d (omega arith) in
      (
        nonce c',
        nonce d',
        ap (λ k. nonce c' ++ aead.seal k (nonce c') x p) km,
        ap (λ k. nonce d' ++ aead.seal k (nonce d') y q) kn,
        λ e.
            let (front, counters) =
              nonce-injective c' d' (ap length fm ∙ lc) (ap length fn ∙ ld) (omega (arith, m))
                (omega (arith, n)) e in
            elim differ [
              | inl other ↦ other (sym fm ∙ front ∙ fn)
              | inr other ↦ other (omega (arith, m, n, counters))
            ],
      )
