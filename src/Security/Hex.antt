-- ===== src/Security/Hex.antt =====
-- `hex`, `unhex` and `unhex32`, of crates/ohmcpd/src/server.rs and crates/ohmcp-client/src/lib.rs.
-- A slice of a `str` that does not end at a character's boundary panics.
pub mod Laws
use ohmcp.Base.Bytes.{hex_digit, Text}
use ohmcp.Base.{
  ◌∷◌, [], List, some, none, Option, ◌&&◌, not, true, Bool, ◌%◌, ◌/◌, ◌*◌, ◌-◌, ◌+◌, ℕ, length,
  if◌then◌else◌, ◌==◌, leb, ltb,
}

pub data Outcome {ℓ} (A : Type ℓ) : Type ℓ where
  panics : Outcome A
  returns : A → Outcome A

-- `write!(s, "{b:02x}")` for each byte.
unfoldable pub hex : List ℕ → Text
hex [] = []
hex (b ∷ bs) = hex_digit (b / 16) ∷ hex_digit (b % 16) ∷ hex bs

-- The value of a digit to the base 16.
abbrev pub digit_value : ℕ → Option ℕ
digit_value c =
    if leb b'0' c && leb c b'9'
    then some (c - b'0')
    else if leb b'a' c && leb c b'f'
    then some (c - 87)
    else if leb b'A' c && leb c b'F'
    then some (c - 55)
    else none

abbrev pub two_digits : Option ℕ → Option ℕ → Option ℕ
two_digits (some h) (some l) = some (16 * h + l)
two_digits _ _ = none

-- `u8::from_str_radix(s, 16)` of two bytes: a plus sign may stand in front.
unfoldable pub from_str_radix : ℕ → ℕ → Option ℕ
from_str_radix a b = if a == b'+' then digit_value b else two_digits (digit_value a) (digit_value b)

-- No character goes on over this place in a text.
abbrev pub is_boundary : Text → Bool
is_boundary [] = true
is_boundary (c ∷ s) = not (leb 0x80 c && ltb c 0xC0)

abbrev pub prepend : ℕ → Outcome (Option (List ℕ)) → Outcome (Option (List ℕ))
prepend v panics = panics
prepend v (returns none) = returns none
prepend v (returns (some vs)) = returns (some (v ∷ vs))

abbrev pub after_pair : Option ℕ → Outcome (Option (List ℕ)) → Outcome (Option (List ℕ))
after_pair none rest = returns none
after_pair (some v) rest = prepend v rest

-- One slice `s[i..i + 2]` after the other, up to the first that is no number.
unfoldable pub unhex_from : Text → Outcome (Option (List ℕ))
unhex_from [] = returns (some [])
unhex_from (a ∷ []) = panics
unhex_from (a ∷ b ∷ s) =
    let rest = unhex_from s in
    if not (is_boundary s) then panics else after_pair (from_str_radix a b) rest

unfoldable pub unhex : Text → Outcome (Option (List ℕ))
unhex s = if not (length s % 2 == 0) then returns none else unhex_from s

unfoldable pub unhex32 : Text → Outcome (Option (List ℕ))
unhex32 s = if not (length s == 64) then returns none else unhex_from s
