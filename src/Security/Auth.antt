-- ===== src/Security/Auth.antt =====
-- crates/ohmcp-security/src/auth.rs: challenge and response, and the keys of sessions.
-- HMAC-SHA256 and X25519 are parameters; a message that is fed in parts is their concatenation.
use ohmcp.Base.{◌++◌, List, true, Bool, ◌↔◌, ap, sym, ◌≡◌, ℕ, All, length}
use ohmcp.Base.Bytes.{ascii, text_eq, text_eq_iff, IsByte}

pub record Primitives : Type 0 where
  pub hmac : List ℕ → List ℕ → List ℕ
  pub hmac_length : (token message : List ℕ) → length (hmac token message) ≡ 32
  pub hmac_bytes : (token message : List ℕ) → All IsByte (hmac token message)
  pub public_key : List ℕ → List ℕ
  pub public_length : (secret : List ℕ) → length (public_key secret) ≡ 32
  pub public_bytes : (secret : List ℕ) → All IsByte (public_key secret)
  pub diffie_hellman : List ℕ → List ℕ → List ℕ
  pub agreement : (a b : List ℕ) → diffie_hellman a (public_key b) ≡ diffie_hellman b (public_key a)

module _ (prim : Primitives) where
  open prim use {hmac, public_key, diffie_hellman, agreement}

  unfoldable pub hmac_response : List ℕ → List ℕ → List ℕ
  hmac_response token nonce = hmac token nonce

  -- `verify_slice` compares the whole of the response.
  unfoldable pub verify_response : List ℕ → List ℕ → List ℕ → Bool
  verify_response token nonce response = text_eq (hmac token nonce) response

  unfoldable pub derive_session_key : List ℕ → List ℕ → List ℕ
  derive_session_key token nonce = hmac token (ascii "ohmcp-session" ++ nonce)

  -- An `EphemeralKeyPair` is given by its secret, which the random generator chose.
  unfoldable pub derive_fs_session_key : List ℕ → List ℕ → List ℕ → List ℕ → List ℕ
  derive_fs_session_key secret peer_public token nonce =
      hmac token (ascii "ohmcp-fs" ++ (nonce ++ diffie_hellman secret peer_public))

  -- A response is accepted exactly when it is the one that the token and the nonce give.
  pub verify_response_iff :
      (token nonce response : List ℕ)
      → (verify_response token nonce response ≡ true) ↔ (response ≡ hmac_response token nonce)
  unfolding verify_response hmac_response
  verify_response_iff token nonce response =
      let i = text_eq_iff (hmac token nonce) response in (λ e. sym (i.0 e), λ e. i.1 (sym e))

  -- Both ends derive the same key from their own secret and the public key of the other.
  pub derive_fs_session_key_agree :
      (a b token nonce : List ℕ)
      → derive_fs_session_key a (public_key b) token nonce
        ≡ derive_fs_session_key b (public_key a) token nonce
  unfolding derive_fs_session_key
  derive_fs_session_key_agree a b token nonce =
      ap (λ x. hmac token (ascii "ohmcp-fs" ++ (nonce ++ x))) (agreement a b)
