-- ===== src/Tests/SecurityRuns.antt =====
-- Access control, hexadecimal texts, the cipher.
use ohmcp.Base.{arith, ◌∷◌, [], List, Option, ◌≢◌, refl, ◌≡◌, ℕ, ◌++◌, inr}
use ohmcp.Base.Bytes.{ascii}
use ohmcp.Security.Hex.{unhex, panics, returns}
use ohmcp.Security.Hex.Laws.{unhex_panics, unhex_returns}
use ohmcp.Security.Crypto.{SessionCipher, encrypt, after}
use ohmcp.Security.Crypto.Laws.{nonce_unique}
use ohmcp.Fixtures.{toy}

-- "a", the two bytes of a character beyond ASCII, and "b".
unhex_panics_example : unhex (b'a' ∷ 0xC3 ∷ 0xA9 ∷ b'b' ∷ []) ≡ panics
unhex_panics_example = unhex_panics b'a' 0xC3 0xA9 (b'b' ∷ []) refl (omega arith) (omega arith)

unhex_returns_example : (o : Option (List ℕ)) × (unhex (ascii "zz") ≡ returns o)
unhex_returns_example = unhex_returns (ascii "zz") (omega arith)

abbrev here : SessionCipher
here = record { key = 1 ∷ 2 ∷ []; nonce_prefix = 1 ∷ 2 ∷ 3 ∷ 4 ∷ []; nonce_counter = 0 }

abbrev there : SessionCipher
there = record { key = 1 ∷ 2 ∷ []; nonce_prefix = 5 ∷ 6 ∷ 7 ∷ 8 ∷ []; nonce_counter = 0 }

nonce_unique_example :
    (m : List ℕ) × (n : List ℕ) × ((encrypt toy (ascii "y") [] (after toy [] here)).0
      ≡ m ++ toy.seal (1 ∷ 2 ∷ []) m [] (ascii "y"))
    × ((encrypt toy (ascii "z") [] (after toy ((ascii "x", []) ∷ []) there)).0
        ≡ n ++ toy.seal (1 ∷ 2 ∷ []) n [] (ascii "z"))
    × (m ≢ n)
nonce_unique_example =
    nonce_unique toy [] ((ascii "x", []) ∷ []) (ascii "y") [] (ascii "z") [] here there refl refl
      refl refl (omega arith) (omega arith) (inr (omega arith))
