-- ===== src/Security/Crypto.antt =====
-- crates/ohmcp-security/src/crypto.rs: the encryption of a session.
-- ChaCha20-Poly1305 and the random prefix of the nonces are parameters.
pub mod Laws
use ohmcp.Base.{
  ◌∷◌, [], ◌++◌, List, some, none, Option, ◌≢◌, ◌≡◌, ◌+◌, ℕ, ok_or, err, Result, drop, take, length,
  if◌then◌else◌, ltb,
}
use ohmcp.Base.Words.{add_u64}
use ohmcp.Base.Bytes.{to_le_bytes}
use ohmcp.Security.{SecurityError, decrypt_failed}

-- The cipher under a key and a nonce: `seal` is the ciphertext with its tag of sixteen bytes.
pub record Aead : Type 0 where
  pub seal : List ℕ → List ℕ → List ℕ → List ℕ → List ℕ
  pub unseal : List ℕ → List ℕ → List ℕ → List ℕ → Option (List ℕ)
  pub opens : (key nonce aad p : List ℕ) → unseal key nonce aad (seal key nonce aad p) ≡ some p
  pub tag : (key nonce aad p : List ℕ) → length (seal key nonce aad p) ≡ length p + 16

-- What the cipher promises of associated data, of the nine bytes that the program hands it: other
-- data are refused.
abbrev pub Authentic : Aead → Type 0
Authentic aead =
    (key nonce a b p : List ℕ)
    → length a ≡ 9
    → length b ≡ 9
    → a ≢ b
    → aead.unseal key nonce b (aead.seal key nonce a p) ≡ none

pub record SessionCipher : Type 0 where
  pub key : List ℕ
  pub nonce_prefix : List ℕ
  pub nonce_counter : ℕ

-- The prefix is the four bytes that the random generator filled in.
abbrev pub new : List ℕ → List ℕ → SessionCipher
new prefix key = record { key = key; nonce_prefix = prefix; nonce_counter = 0 }

abbrev pub nonce : SessionCipher → List ℕ
nonce c = c.nonce_prefix ++ to_le_bytes 8 c.nonce_counter

module _ (aead : Aead) where
  -- `fetch_add` moves the counter on.
  unfoldable pub encrypt : List ℕ → List ℕ → SessionCipher → List ℕ × SessionCipher
  encrypt plaintext aad c = (
    nonce c ++ aead.seal c.key (nonce c) aad plaintext,
    record c { nonce_counter = add_u64 c.nonce_counter 1 },
  )

  unfoldable pub decrypt : List ℕ → List ℕ → SessionCipher → Result SecurityError (List ℕ)
  decrypt payload aad c =
      if ltb (length payload) (12 + 16)
      then err decrypt_failed
      else ok_or (aead.unseal c.key (take 12 payload) aad (drop 12 payload)) decrypt_failed

  -- The cipher after it encrypted messages, each with its associated data.
  unfoldable pub after : List (List ℕ × List ℕ) → SessionCipher → SessionCipher
  after [] c = c
  after ((p, aad) ∷ ms) c = after ms (encrypt p aad c).1
