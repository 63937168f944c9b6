-- ===== src/Transport/Shm/Memory.antt =====
-- Copies into the ring's memory and out of it.
use ohmcp.Base.{
  [], inr, inl, refl, zero, suc, arith, ap₂, ◌∷◌, ◌⊎◌, ◌∙◌, ◌≡◌, ◌<◌, ◌≤◌, ◌%◌, ◌/◌, ◌*◌, ◌+◌,
  length, List, ℕ,
}
use native.Mathlib.Nat.{div-add-mod}
use ohmcp.Transport.Shm.{copy_in, copy_out}

copy_in_below : (mem : ℕ → ℕ) (p : ℕ) (d : List ℕ) (i : ℕ) → i < p → copy_in mem p d i ≡ mem i
unfolding copy_in
copy_in_below mem p [] i h = refl
copy_in_below mem p (x ∷ xs) i h = ground (arith, copy_in_below mem (suc p) xs i)

copy_in_above :
    (mem : ℕ → ℕ) (p : ℕ) (d : List ℕ) (i : ℕ) → p + length d ≤ i → copy_in mem p d i ≡ mem i
unfolding copy_in
copy_in_above mem p [] i h = refl
copy_in_above mem p (x ∷ xs) i h = ground (arith, copy_in_above mem (suc p) xs i)

copy_out_ext :
    (f g : ℕ → ℕ) (p n : ℕ)
    → ((i : ℕ) → p ≤ i → i < p + n → f i ≡ g i)
    → copy_out f p n ≡ copy_out g p n
unfolding copy_out
copy_out_ext f g p zero h = refl
copy_out_ext f g p (suc n) h =
    ap₂ ◌∷◌ (h p (omega arith) (omega arith))
      (copy_out_ext f g (suc p) n (λ i a b. h i (omega arith) (omega arith)))

-- What was written is read back.
pub copy_out-copy_in :
    (mem : ℕ → ℕ) (p : ℕ) (d : List ℕ) → copy_out (copy_in mem p d) p (length d) ≡ d
unfolding copy_out copy_in
copy_out-copy_in mem p [] = refl
copy_out-copy_in mem p (x ∷ xs) = ap₂ ◌∷◌ (ground arith) (
    copy_out_ext (copy_in mem p (x ∷ xs)) (copy_in mem (suc p) xs) (suc p) (length xs)
      (λ i a b. ground arith)
    ∙ copy_out-copy_in mem (suc p) xs)

-- A copy does not touch what lies on either side of it.
pub copy_out-copy_in_apart :
    (mem : ℕ → ℕ) (p : ℕ) (d : List ℕ) (q n : ℕ)
    → (q + n ≤ p) ⊎ (p + length d ≤ q)
    → copy_out (copy_in mem p d) q n ≡ copy_out mem q n
copy_out-copy_in_apart mem p d q n (inl h) =
    copy_out_ext _ _ q n (λ i a b. copy_in_below mem p d i (omega arith))
copy_out-copy_in_apart mem p d q n (inr h) =
    copy_out_ext _ _ q n (λ i a b. copy_in_above mem p d i (omega arith))

-- Records that do not wrap round the end of the ring, and whose counters lie within one lap of each
-- other, lie apart in memory.
apart_laps :
    (c qa qb ra rb l n : ℕ)
    → c * qa + ra + l ≤ c * qb + rb
    → c * qb + rb + n ≤ c * qa + ra + c
    → ra + l ≤ c
    → rb + n ≤ c
    → 0 < l
    → 0 < n
    → (ra + l ≤ rb) ⊎ (rb + n ≤ ra)
apart_laps c zero zero ra rb l n h k a b p q = inl (omega arith)
apart_laps c zero (suc zero) ra rb l n h k a b p q = inr (omega arith)
apart_laps c zero (suc (suc qb)) ra rb l n h k a b p q = absurd (omega arith)
apart_laps c (suc qa) zero ra rb l n h k a b p q = absurd (omega arith)
apart_laps c (suc qa) (suc qb) ra rb l n h k a b p q =
    apart_laps c qa qb ra rb l n (omega arith) (omega arith) a b p q

pub apart :
    (c a b l n : ℕ)
    → a + l ≤ b
    → b + n ≤ a + c
    → a % c + l ≤ c
    → b % c + n ≤ c
    → 0 < l
    → 0 < n
    → (a % c + l ≤ b % c) ⊎ (b % c + n ≤ a % c)
apart c a b l n h k p q r s =
    apart_laps c (a / c) (b / c) (a % c) (b % c) l n
      (omega (arith, div-add-mod a c, div-add-mod b c))
      (omega (arith, div-add-mod a c, div-add-mod b c)) p q r s
