-- ===== src/Base/Utf8.antt =====
-- Texts beyond ASCII as their UTF-8 bytes, and numbers as texts.
use ohmcp.Base.{
  ◌&&◌, leb, Bool, ℕ, zero, suc, ◌+◌, ◌/◌, ◌%◌, List, [], ◌∷◌, ◌++◌, String, ltb, if◌then◌else◌,
}
use Prim.Native.Char.{code}
use ohmcp.Base.Bytes.{Text}

-- The bytes of one character.
abbrev encode_utf8 : ℕ → List ℕ
encode_utf8 c =
    if ltb c 128
    then c ∷ []
    else if ltb c 2048
    then (192 + c / 64) ∷ (128 + c % 64) ∷ []
    else if ltb c 65536
    then (224 + c / 4096) ∷ (128 + c / 64 % 64) ∷ (128 + c % 64) ∷ []
    else (240 + c / 262144) ∷ (128 + c / 4096 % 64) ∷ (128 + c / 64 % 64) ∷ (128 + c % 64) ∷ []

-- A literal.
abbrev pub utf8 : String → Text
utf8 String.[] = []
utf8 (String.◌∷◌ c s) = encode_utf8 (code c) ++ utf8 s

-- A byte that does not begin a character.
abbrev pub is_continuation : ℕ → Bool
is_continuation b = leb 128 b && ltb b 192

-- The digits of a number of at most so many.
abbrev digits : ℕ → ℕ → Text
digits zero n = []
digits (suc fuel) n =
    let front = digits fuel (n / 10) in
    if ltb n 10 then (48 + n) ∷ [] else front ++ ((48 + n % 10) ∷ [])

-- `format!("{n}")` of a u64, which has at most twenty digits.
unfoldable pub decimal : ℕ → Text
decimal n = digits 20 n
