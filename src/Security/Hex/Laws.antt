-- ===== src/Security/Hex/Laws.antt =====
-- What `unhex` makes of the texts of `hex`, and of other texts.
use ohmcp.Security.Hex.{
  after_pair, Outcome, panics, returns, hex, hex_digit, digit_value, from_str_radix, unhex_from,
  unhex, unhex32, is_boundary,
}
use ohmcp.Base.{
  inr, inl, ◌-◌, Bool-cases, arith, ◌∷◌, [], List, some, none, Option, true, ◌≢◌, refl, ◌≡◌, ◌<◌,
  ◌≤◌, ◌%◌, ◌/◌, ◌*◌, ℕ, All, length, if◌then◌else◌, ◌==◌,
}
use ohmcp.Base.Bytes.{Text, IsByte}

digit_value-hex_digit : (d : ℕ) → d < 16 → digit_value (hex_digit d) ≡ some d
digit_value-hex_digit d h = ground arith

hex_digit-ascii : (d : ℕ) → d < 16 → (hex_digit d < 0x80) × (hex_digit d ≢ b'+')
hex_digit-ascii d h = ground arith

from_str_radix-hex :
    (b : ℕ) → b < 256 → from_str_radix (hex_digit (b / 16)) (hex_digit (b % 16)) ≡ some b
unfolding from_str_radix
from_str_radix-hex b h = ground (
  arith,
  hex_digit-ascii (b / 16) (omega arith),
  digit_value-hex_digit (b / 16) (omega arith),
  digit_value-hex_digit (b % 16) (omega arith),
)

hex-is_boundary : (bs : List ℕ) → All IsByte bs → is_boundary (hex bs) ≡ true
unfolding hex
hex-is_boundary [] p = refl
hex-is_boundary (b ∷ bs) p = ground (arith, hex_digit-ascii (b / 16) (omega arith))

unhex_from-hex : (bs : List ℕ) → All IsByte bs → unhex_from (hex bs) ≡ returns (some bs)
unfolding unhex_from hex
unhex_from-hex [] p = refl
unhex_from-hex (b ∷ bs) p =
    rw (hex-is_boundary bs p.1, from_str_radix-hex b p.0, unhex_from-hex bs p.1)

length-hex : (bs : List ℕ) → length (hex bs) ≡ 2 * length bs
unfolding hex
length-hex [] = refl
length-hex (b ∷ bs) = omega (arith, length-hex bs)

-- `unhex` reads back what `hex` wrote of any bytes; so does `unhex32`, if there are 32 of them, and
-- otherwise it refuses.
pub unhex-hex :
    (bs : List ℕ)
    → All IsByte bs
    → (unhex (hex bs) ≡ returns (some bs))
      × (unhex32 (hex bs) ≡ returns (if length bs == 32 then some bs else none))
unfolding unhex unhex32
unhex-hex bs p = ground (arith, unhex_from-hex bs p, length-hex bs)

abbrev IsAscii : Text → Type 0
IsAscii = All (λ c. c < 0x80)

-- A text of an even length whose third byte goes on a character is no number, but `unhex` does not
-- return `None` for it: it panics.
pub unhex_panics :
    (a b c : ℕ) (s : Text) → length s % 2 ≡ 1 → 0x80 ≤ c → c < 0xC0 → unhex (a ∷ b ∷ c ∷ s) ≡ panics
unfolding unhex unhex_from
unhex_panics a b c s e h k = ground arith

ascii-is_boundary : (s : Text) → IsAscii s → is_boundary s ≡ true
ascii-is_boundary [] p = refl
ascii-is_boundary (c ∷ s) p = ground (arith, p.0)

after_pair_returns :
    (v : Option ℕ) (r : Outcome (Option (List ℕ))) (o : Option (List ℕ))
    → r ≡ returns o
    → (x : Option (List ℕ)) × (after_pair v r ≡ returns x)
after_pair_returns none r o e = (none, refl)
after_pair_returns (some v) r none e = (none, rw e)
after_pair_returns (some v) r (some vs) e = (some (v ∷ vs), rw e)

unhex_from_returns :
    (s : Text) (n : ℕ)
    → IsAscii s
    → length s ≡ 2 * n
    → (o : Option (List ℕ)) × (unhex_from s ≡ returns o)
unfolding unhex_from
unhex_from_returns [] n p e = (some [], refl)
unhex_from_returns (a ∷ []) n p e = absurd (omega arith)
unhex_from_returns (a ∷ b ∷ s) n p e =
    let (o, q) = unhex_from_returns s (n - 1) p.1.1 (omega arith) in
    rw (ascii-is_boundary s p.1.1) (after_pair_returns (from_str_radix a b) (unhex_from s) o q)

-- On a text of ASCII characters, of any length, `unhex` returns.
pub unhex_returns : (s : Text) → IsAscii s → (o : Option (List ℕ)) × (unhex s ≡ returns o)
unfolding unhex
unhex_returns s p = elim (Bool-cases (length s % 2 == 0)) [
  | inl e ↦ rw e (unhex_from_returns s (length s / 2) p (ground arith))
  | inr e ↦ (none, rw e)
]
