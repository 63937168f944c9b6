-- ===== src/Cache/ResultCache/Bounded.antt =====
-- The number of entries, and which entry goes when there are too many.
use ohmcp.Cache.ResultCache.{
  make_room, Entry, Entries, CacheKey, ResultCache, Walk, get, get_entry, put, victim, least_used,
  evict, evict_lru,
}
use ohmcp.Base.{
  some, none, Option, refl, arith, ◌∷◌, [], List, true, inr, inl, ◌≡◌, ◌<◌, ◌≤◌, suc, ℕ, All-take,
  length-take, All, take, length, Bool-cases, ltb,
}
use Prim.Native.Nat.{max}
use ohmcp.Base.Equality.{text_equality}
use ohmcp.Base.Maps.{
  contains_key, remove, length-insert, lookup, length-remove-le, length-remove_present,
  contains_key_of_lookup,
}

abbrev pub IsBounded : ResultCache → Type 0
IsBounded c = length c.entries ≤ max c.capacity 1

least_used-key :
    (P : CacheKey × Entry → Type 0) (best : CacheKey × Entry) (xs : Entries)
    → P best
    → All P xs
    → P (least_used best xs)
unfolding least_used
least_used-key P best [] p ps = p
least_used-key P best (x ∷ xs) p ps = elim (Bool-cases (ltb x.1.last_used best.1.last_used)) [
  | inl e ↦ rw e (least_used-key P x xs ps.0 ps.1)
  | inr e ↦ rw e (least_used-key P best xs p ps.1)
]

evict-lt :
    (m s : Entries)
    → All (λ x. contains_key x.0 m ≡ true) s
    → 0 < length s
    → suc (length (evict (victim s) m)) ≤ length m
unfolding evict victim
evict-lt m [] a h = absurd (omega arith)
evict-lt m (x ∷ xs) a h =
    length-remove_present _ m (least_used-key (λ x. contains_key x.0 m ≡ true) x xs a.0 a.1)

evict_lru-lt :
    (walk : Walk) (m : Entries) → 0 < length m → suc (length (evict_lru walk m)) ≤ length m
unfolding evict_lru
evict_lru-lt walk m h =
    evict-lt m (take 8 (walk.iter m))
      (All-take (λ x. contains_key x.0 m ≡ true) 8 (walk.iter m) (walk.walks_keys m))
      (omega (arith, length-take 8 (walk.iter m), walk.walks_all m))

evict-nil : (o : Option CacheKey) → length (evict o []) ≡ 0
unfolding evict remove
evict-nil none = refl
evict-nil (some k) = refl

evict_lru-le :
    (walk : Walk) (m : Entries)
    → (length m ≡ 0 → length (evict_lru walk m) ≡ 0)
      × (0 < length m → suc (length (evict_lru walk m)) ≤ length m)
evict_lru-le walk [] =
    (λ e. unfold evict_lru in evict-nil (victim (take 8 (walk.iter []))), λ h. absurd (omega arith))
evict_lru-le walk (x ∷ m) = (λ e. absurd (omega arith), evict_lru-lt walk (x ∷ m))

-- A cache never holds more entries than its capacity, or one entry if the capacity is zero: `put`
-- keeps that bound.
pub put-IsBounded :
    (walk : Walk) (now : ℕ) (key : CacheKey) (value : List ℕ) (c : ResultCache)
    → IsBounded c
    → IsBounded (put walk now key value c)
unfolding put make_room
put-IsBounded walk now key value c b =
    let e : Entry = record { value = value; inserted = now; last_used = now } in
    ground (
      arith,
      length-insert key e c.entries,
      length-insert key e (evict_lru walk c.entries),
      evict_lru-le walk c.entries,
    )

get_entry-IsBounded :
    (now : ℕ) (key : CacheKey) (c : ResultCache) (o : Option Entry)
    → lookup key c.entries ≡ o
    → IsBounded c
    → IsBounded (get_entry now key c o).1
unfolding get_entry
get_entry-IsBounded now key c none h b = b
get_entry-IsBounded now key c (some e) h b = ground (
  arith,
  length-insert key (record e { last_used = now }) c.entries,
  contains_key_of_lookup key e c.entries h,
  length-remove-le key c.entries,
)

-- `get` keeps that bound too.
pub get-IsBounded :
    (now : ℕ) (key : CacheKey) (c : ResultCache) → IsBounded c → IsBounded (get now key c).1
unfolding get
get-IsBounded now key c b = get_entry-IsBounded now key c (lookup key c.entries) refl b
