-- ===== src/Transport/Shm/Fifo.antt =====
-- The ring as a queue: records come out as they went in, whatever is written in between.
use ohmcp.Base.Words.{sub_u64, add_u64}
use ohmcp.Transport.Shm.{copy_in, ShmRing, place, try_write, read_release, copy_out, max_shm_cap}
use ohmcp.Base.{
  ap, subst, sym, ◌/◌, suc, ◌-◌, arith, ◌++◌, ◌∷◌, [], List, some, ◌∙◌, refl, ◌≡◌, ◌<◌, ◌≤◌, ◌^◌,
  ◌%◌, ◌*◌, ◌+◌, ℕ, length,
}
use native.Mathlib.Nat.{div-add-mod, mod-lt, mul-mod_right}
use ohmcp.Transport.Shm.Memory.{copy_out-copy_in, copy_out-copy_in_apart, apart}

-- The records between two counters, oldest first: each is whole and unbroken in memory.
abbrev pub Chain : ℕ → (ℕ → ℕ) → ℕ → ℕ → List (ℕ × List ℕ) → Type 0
Chain cap mem from to [] = from ≡ to
Chain cap mem from to ((off, d) ∷ q) =
    (from ≤ off)
    × (0 < length d)
    × (off % cap + length d ≤ cap)
    × (copy_out mem (off % cap) (length d) ≡ d)
    × Chain cap mem (off + length d) to q

-- The ring holds the records `q`.
pub record Holds (r : ShmRing) (q : List (ℕ × List ℕ)) : Type 0 where
  pub positive : 0 < r.cap
  pub small : r.cap ≤ max_shm_cap
  pub room : r.head ≤ r.tail + r.cap
  pub chain : Chain r.cap r.bytes r.tail r.head q

pub Chain-le :
    (cap : ℕ) (mem : ℕ → ℕ) (from to : ℕ) (q : List (ℕ × List ℕ))
    → Chain cap mem from to q
    → from ≤ to
Chain-le cap mem from to [] c = omega arith
Chain-le cap mem from to ((off, d) ∷ q) c =
    omega (arith, Chain-le cap mem (off + length d) to q c.4)

lap_start : (h c : ℕ) → 0 < c → (h + (c - h % c)) % c ≡ 0
lap_start h c p =
    let whole : h + (c - h % c) ≡ c * suc (h / c) = omega (arith, div-add-mod h c, mod-lt h p) in
    ap (λ x. x % c) whole ∙ mul-mod_right c (suc (h / c))

-- Where a record goes: at or behind the head, whole, and less than a lap on.
pub place_fits :
    (r : ShmRing) (len : ℕ)
    → 0 < r.cap
    → len ≤ r.cap
    → r.head + 2 * r.cap < 2 ^ 64
    → (r.head ≤ place r len) × (place r len % r.cap + len ≤ r.cap) × (place r len ≤ r.head + r.cap)
unfolding place
place_fits r len p l h = ground (arith, lap_start r.head r.cap p)

Chain-append :
    (cap : ℕ) (mem : ℕ → ℕ) (pos : ℕ) (d : List ℕ) (from to : ℕ) (q : List (ℕ × List ℕ))
    → Chain cap mem from to q
    → to ≤ pos
    → pos + length d ≤ from + cap
    → pos % cap + length d ≤ cap
    → 0 < length d
    → Chain cap (copy_in mem (pos % cap) d) from (pos + length d) (q ++ ((pos, d) ∷ []))
Chain-append cap mem pos d from to [] c h k fit n =
    (omega arith, n, fit, copy_out-copy_in mem (pos % cap) d, refl)
Chain-append cap mem pos d from to ((off, x) ∷ q) c h k fit n =
    let far = Chain-le cap mem (off + length x) to q c.4 in
    (
      c.0,
      c.1,
      c.2,
      copy_out-copy_in_apart mem (pos % cap) d (off % cap) (length x) (
            apart cap off pos (length x) (length d) (omega (arith, far)) (omega (arith, c.0)) c.2
              fit c.1 n)
          ∙ c.3,
      Chain-append cap mem pos d (off + length x) to q c.4 h (omega (arith, c.0)) fit n,
    )

-- The ring after a record has been written at a counter.
abbrev pub written_at : ShmRing → List ℕ → ℕ → ShmRing
written_at r d pos = record r {
  bytes = copy_in r.bytes (pos % r.cap) d;
  head = add_u64 pos (length d);
}

-- What `try_write` tested before it wrote.
pub try_write_parts :
    (r : ShmRing) (d : List ℕ) (off : ℕ) (r' : ShmRing)
    → try_write d r ≡ some (off, r')
    → (off ≡ place r (length d))
      × (r' ≡ written_at r d off)
      × (0 < length d)
      × (length d ≤ r.cap)
      × (sub_u64 (add_u64 off (length d)) r.tail ≤ r.cap)
unfolding try_write
try_write_parts r d off r' e = ground arith

written_at-Holds :
    (r : ShmRing) (q : List (ℕ × List ℕ)) (d : List ℕ) (off : ℕ)
    → Holds r q
    → r.head + 2 * r.cap < 2 ^ 64
    → off ≡ place r (length d)
    → 0 < length d
    → length d ≤ r.cap
    → sub_u64 (add_u64 off (length d)) r.tail ≤ r.cap
    → Holds (written_at r d off) (q ++ ((off, d) ∷ []))
written_at-Holds r q d off v h e n l room =
    let (lo, fit, hi) = place_fits r (length d) v.positive l h in
    let behind = Chain-le r.cap r.bytes r.tail r.head q v.chain in
    let end : add_u64 off (length d) ≡ off + length d = omega arith in
    record {
      positive = v.positive;
      small = v.small;
      room = omega (arith, end);
      chain = rw end (
          Chain-append r.cap r.bytes off d r.tail r.head q v.chain (omega arith)
            (omega (arith, end)) (rw e fit) n);
    }

-- A write that is accepted puts the record behind those that the ring holds, and keeps them all.
pub try_write-Holds :
    (r : ShmRing) (q : List (ℕ × List ℕ)) (d : List ℕ) (off : ℕ) (r' : ShmRing)
    → Holds r q
    → r.head + 2 * r.cap < 2 ^ 64
    → try_write d r ≡ some (off, r')
    → Holds r' (q ++ ((off, d) ∷ []))
try_write-Holds r q d off r' v h e =
    let (at_place, ring, n, l, room) = try_write_parts r d off r' e in
    subst (λ x. Holds x (q ++ ((off, d) ∷ []))) (sym ring)
      (written_at-Holds r q d off v h at_place n l room)

-- The oldest record is read whole, and its room is free again.
pub read_release-Holds :
    (r : ShmRing) (q : List (ℕ × List ℕ)) (d : List ℕ) (off : ℕ)
    → Holds r ((off, d) ∷ q)
    → r.head < 2 ^ 64
    → (read_release off (length d) r ≡ some (d, record r { tail = off + length d }))
      × Holds (record r { tail = off + length d }) q
unfolding read_release
read_release-Holds r q d off v h =
    let (lo, n, fit, content, rest) = v.chain in
    let behind = Chain-le r.cap r.bytes (off + length d) r.head q rest in
    (
      ground (arith, content, behind),
      record { positive = v.positive; small = v.small; room = omega (arith, v.room); chain = rest },
    )
