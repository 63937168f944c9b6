-- ===== src/Base/Integers.antt =====
-- The integers, over the natural numbers that the rest of the model uses.
use ohmcp.Base.{ℕ, zero, suc}

pub data ℤ : Type 0 where
  pos : ℕ → ℤ
  negsuc : ℕ → ℤ

-- The negative of a number.
abbrev pub minus : ℕ → ℤ
minus zero = pos zero
minus (suc n) = negsuc n
