-- ===== src/Server/Builtin/Blob.antt =====
-- The loops of the built-in tools end, and the sizes of what they make.
use ohmcp.Base.{
  ◌*◌, ap, subst, refl, drop_add, take-append-drop, append_assoc, append-nil, false, ◌∙◌, sym, drop,
  arith, ◌++◌, true, inr, inl, ◌≡◌, ◌<◌, ◌≤◌, ◌+◌, ℕ, length-append, All, take, length, Bool-cases,
  ltb, zero, suc, [], ◌∷◌,
}
use ohmcp.Server.Builtin.{
  asked_kb, blob_filled, blob_seed, blob_size, str_or, kb_blob, kb_dump, Json, cut_at, clamp,
  dump_line, blob_line, to_boundary, fill,
}
use ohmcp.Base.Bytes.{ascii, Text}
use ohmcp.Server.Tools.{text_result}
use ohmcp.Base.Utf8.{is_continuation}

-- So many lines, from one on.
abbrev pub lines : (ℕ → Text) → ℕ → ℕ → Text
lines line i zero = []
lines line i (suc k) = line i ++ lines line (suc i) k

-- What a loop that fills up to a size comes to: lines, so many that the size is reached, and without
-- the last of them it is not.
abbrev pub Filled : (ℕ → Text) → ℕ → Text → Type 0
Filled line size t =
    (k : ℕ) × (t ≡ lines line 0 (suc k)) × (length (lines line 0 k) < size) × (size ≤ length t)

-- The test ends the loop.
fill_full :
    (fuel : ℕ) (line : ℕ → Text) (size i : ℕ) (out : Text)
    → ltb (length out) size ≡ false
    → fill fuel line size i out ≡ out
unfolding fill
fill_full zero line size i out h = refl
fill_full (suc fuel) line size i out h = rw h refl

-- With fuel for the bytes that lack, and lines that are not empty, the loop ends by its own test, and
-- has put lines behind what was there, the last of them when the size was not reached.
fill-lines :
    (fuel : ℕ) (line : ℕ → Text) (size i : ℕ) (out : Text)
    → ((k : ℕ) → 0 < length (line k))
    → length out < size
    → size ≤ length out + fuel
    → (k : ℕ) × (fill fuel line size i out ≡ out ++ lines line i (suc k))
      × (length (out ++ lines line i k) < size)
      × (size ≤ length (fill fuel line size i out))
unfolding fill
fill-lines zero line size i out l few h = absurd (omega (arith, few, h))
fill-lines (suc fuel) line size i out l few h =
    let y : ltb (length out) size ≡ true = ground (arith, few) in
    let grown = out ++ line i in
    let longer = length-append out (line i) in
    elim (Bool-cases (ltb (length grown) size)) [
      | inl more ↦
          let (k, same, below, reached) =
            fill-lines fuel line size (suc i) grown l (ground arith) (omega (arith, longer, l i)) in
          rw y (
            suc k,
            same ∙ append_assoc out (line i) (lines line (suc i) (suc k)),
            subst (λ t. length t < size) (append_assoc out (line i) (lines line (suc i) k)) below,
            reached,
          )
      | inr full ↦
          let enough : size ≤ length grown = ground arith in
          let ends = fill_full fuel line size (suc i) grown full in
          rw (y, ends)
            (
              0,
              ap (λ t. out ++ t) (sym (append-nil (line i))),
              subst (λ t. length t < size) (sym (append-nil out)) few,
              enough,
            )
    ]

abbrev pub Continues : ℕ → Type 0
Continues b = is_continuation b ≡ true

-- A text that does not begin inside a character.
abbrev pub Begins : Text → Type 0
Begins [] = Unit {0}
Begins (b ∷ rest) = is_continuation b ≡ false

to_boundary_parts :
    (t : Text) → All Continues (take (to_boundary t) t) × Begins (drop (to_boundary t) t)
unfolding to_boundary
to_boundary_parts [] = (tt, tt)
to_boundary_parts (b ∷ rest) = elim (Bool-cases (is_continuation b)) [
  | inl y ↦ let (run, begins) = to_boundary_parts rest in rw y ((y, run), begins)
  | inr n ↦ rw n (tt, n)
]

-- What is behind the first `n` elements of the first `m`.
drop-take :
    (n k m : ℕ) (xs : Text)
    → m ≡ n + k
    → n ≤ length xs
    → (n ≤ length (take m xs)) × (drop n (take m xs) ≡ take k (drop n xs))
drop-take zero k m xs e h = (omega arith, ap (λ j. take j xs) (omega (arith, e)))
drop-take (suc n) k m [] e h = absurd (omega arith)
drop-take (suc n) k zero (x ∷ xs) e h = absurd (omega arith)
drop-take (suc n) k (suc m) (x ∷ xs) e h =
    let (long, same) = drop-take n k m xs (omega (arith, e)) (omega (arith, h)) in
    (omega (arith, long), same)

dump_line_some : (doc_id : Text) (k : ℕ) → 0 < length (dump_line doc_id k)
dump_line_some doc_id k = omega arith

blob_line_some : (seed k : ℕ) → 0 < length (blob_line seed k)
blob_line_some seed k = omega arith

clamp_bounds : (low high n : ℕ) → low ≤ high → (low ≤ clamp low high n) × (clamp low high n ≤ high)
clamp_bounds low high n h = ground arith

-- The text, and what `truncate` took away.
cut_at_parts :
    (size : ℕ) (out : Text)
    → size ≤ length out
    → (size ≤ length (cut_at size out))
      × All Continues (drop size (cut_at size out))
      × (rest : Text) × (cut_at size out ++ rest ≡ out)
      × Begins rest
unfolding cut_at
cut_at_parts size out h =
    let n = to_boundary (drop size out) in
    let (run, begins) = to_boundary_parts (drop size out) in
    let (long, same) = drop-take size n (size + n) out refl h in
    (
      long,
      subst (All Continues) (sym same) run,
      drop (size + n) out,
      take-append-drop (size + n) out,
      subst Begins (sym (drop_add size n out)) begins,
    )

from_nothing : (n : ℕ) → n ≤ 0 + n
from_nothing n = omega arith

kib_bounds : (n : ℕ) → (1 ≤ n) × (n ≤ 4096) → (1024 ≤ n * 1024) × (n * 1024 ≤ 4194304)
kib_bounds n h = (omega (arith, h.0), omega (arith, h.1))

one_fits : 1 ≤ 4096
one_fits = omega arith

-- A loop that begins with nothing and has the size as its fuel.
fill-Filled :
    (line : ℕ → Text) (size : ℕ)
    → ((k : ℕ) → 0 < length (line k))
    → 0 < size
    → Filled line size (fill size line size 0 [])
fill-Filled line size l some_size = fill-lines size line size 0 [] l some_size (from_nothing size)

module _ {Value : Type 0} (json : Json Value) (args : Value) where
  -- Whatever its arguments are, `kb.dump` returns whole lines, as many as reach 64 KiB and no more;
  -- and `kb.blob` fills up with such lines to the size that was asked for, which is 1 KiB to 4 MiB,
  -- stops with the line that reaches it, and returns their beginning of at least that size, cut
  -- where a character begins and at the first such place.
  pub kb_dump-kb_blob :
      ((t : Text) × (kb_dump json args ≡ text_result t)
        × Filled (dump_line (str_or json (ascii "doc_id") (ascii "0") args)) 65536 t)
      × (t : Text) × (rest : Text) × (kb_blob json args ≡ text_result t)
      × (1024 ≤ blob_size json args)
      × (blob_size json args ≤ 4194304)
      × (blob_size json args ≤ length t)
      × All Continues (drop (blob_size json args) t)
      × Filled (blob_line (blob_seed json args)) (blob_size json args) (t ++ rest)
      × Begins rest
  unfolding kb_dump kb_blob
  kb_dump-kb_blob =
      let doc_id = str_or json (ascii "doc_id") (ascii "0") args in
      let size = blob_size json args in
      let line = blob_line (blob_seed json args) in
      let (low, high) =
        kib_bounds (clamp 1 4096 (asked_kb json args))
          (clamp_bounds 1 4096 (asked_kb json args) one_fits) in
      let filled =
        fill-Filled line size (blob_line_some (blob_seed json args)) (omega (arith, low)) in
      let (k, same, below, reached) = filled in
      let (long, run, rest, whole, begins) = cut_at_parts size (blob_filled json args) reached in
      (
        (_, refl, fill-Filled (dump_line doc_id) 65536 (dump_line_some doc_id) (omega arith)),
        cut_at size (blob_filled json args),
        rest,
        refl,
        low,
        high,
        long,
        run,
        subst (Filled line size) (sym whole) filled,
        begins,
      )
