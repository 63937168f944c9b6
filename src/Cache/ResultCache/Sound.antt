-- ===== src/Cache/ResultCache/Sound.antt =====
-- The cache against an unbounded record of what was stored: a hit is the last value stored under
-- the key, and it is no older than the cache's limit.
use ohmcp.Base.Words.{add_u64}
use ohmcp.Cache.ResultCache.{
  victim, make_room, hash_input, Entry, Entries, CacheKey, ResultCache, Walk, get, get_entry, put,
  evict, evict_lru,
}
use ohmcp.Base.{
  ◌∷◌, [], ◌≢◌, refl, ◌<◌, All, take, arith, List, some, none, Option, ◌≡◌, ◌≤◌, ◌-◌, ℕ,
}
use ohmcp.Base.Equality.{text_equality}
use ohmcp.Base.Maps.{insert, lookup, lookup-insert, lookup-remove}
use ohmcp.Base.Bytes.{Text, text_eq_iff}

-- For each key, the last value stored and when.
abbrev pub Stored : Type 0
Stored = List (CacheKey × (List ℕ × ℕ))

pub record IsSound (c : ResultCache) (s : Stored) : Type 0 where
  pub known :
      (k : CacheKey) (e : Entry)
      → lookup k c.entries ≡ some e
      → lookup k s ≡ some (e.value, e.inserted)

evict-known :
    (o : Option CacheKey) (m : Entries) (k : CacheKey) (e : Entry)
    → lookup k (evict o m) ≡ some e
    → lookup k m ≡ some e
unfolding evict
evict-known none m k e h = h
evict-known (some j) m k e h = ground (arith, lookup-remove j k m)

make_room-known :
    (walk : Walk) (key : CacheKey) (c : ResultCache) (k : CacheKey) (e : Entry)
    → lookup k (make_room walk key c) ≡ some e
    → lookup k c.entries ≡ some e
unfolding make_room evict_lru
make_room-known walk key c k e h =
    ground (arith, evict-known (victim (take 8 (walk.iter c.entries))) c.entries k e)

-- `put` stores: the cache agrees with the record in which the value is stored too.
pub put-IsSound :
    (walk : Walk) (now : ℕ) (key : CacheKey) (value : List ℕ) (c : ResultCache) (s : Stored)
    → IsSound c s
    → IsSound (put walk now key value c) (insert key (value, now) s)
unfolding put
put-IsSound walk now key value c s v = record {
  known = λ k e h.
      let new : Entry = record { value = value; inserted = now; last_used = now } in
      ground (
        arith,
        h,
        lookup-insert key k new (make_room walk key c),
        lookup-insert key k (value, now) s,
        make_room-known walk key c k e,
        v.known k e,
      );
}

get_entry-IsSound :
    (now : ℕ) (key : CacheKey) (c : ResultCache) (s : Stored) (o : Option Entry)
    → IsSound c s
    → lookup key c.entries ≡ o
    → IsSound (get_entry now key c o).1 s
unfolding get_entry
get_entry-IsSound now key c s none v g = record { known = v.known }
get_entry-IsSound now key c s (some e) v g = record {
  known = λ k x h. ground (
    arith,
    h,
    g,
    text_eq_iff key k,
    lookup-insert key k (record e { last_used = now }) c.entries,
    lookup-remove key k c.entries,
    v.known k x,
    v.known key e,
  );
}

-- `get` stores nothing.
pub get-IsSound :
    (now : ℕ) (key : CacheKey) (c : ResultCache) (s : Stored)
    → IsSound c s
    → IsSound (get now key c).1 s
unfolding get
get-IsSound now key c s v = get_entry-IsSound now key c s (lookup key c.entries) v refl

get_entry_hit :
    (now : ℕ) (key : CacheKey) (value : List ℕ) (c : ResultCache) (s : Stored) (o : Option Entry)
    → IsSound c s
    → lookup key c.entries ≡ o
    → (get_entry now key c o).0 ≡ some value
    → (t : ℕ) × (lookup key s ≡ some (value, t)) × (now - t ≤ c.ttl)
unfolding get_entry
get_entry_hit now key value c s none v g h = cc
get_entry_hit now key value c s (some e) v g h =
    (e.inserted, ground (arith, v.known key e g), ground arith)

-- What `get` returns is the last value stored under the key, and it was stored at most `ttl` ago.
pub get_hit :
    (now : ℕ) (key : CacheKey) (value : List ℕ) (c : ResultCache) (s : Stored)
    → IsSound c s
    → (get now key c).0 ≡ some value
    → (t : ℕ) × (lookup key s ≡ some (value, t)) × (now - t ≤ c.ttl)
unfolding get
get_hit now key value c s v h = get_entry_hit now key value c s (lookup key c.entries) v refl h

-- A value that was just stored is returned, and counted as a hit, as long as it is no older than
-- the limit; after that it is not returned, and the entry is gone.
pub get-put :
    (walk : Walk) (t now : ℕ) (key : CacheKey) (value : List ℕ) (c : ResultCache)
    → let c' = put walk t key value c in
      (now - t ≤ c.ttl
        → ((get now key c').0 ≡ some value) × ((get now key c').1.hits ≡ add_u64 c.hits 1))
      × (c.ttl < now - t
          → ((get now key c').0 ≡ none)
            × (lookup key (get now key c').1.entries ≡ none)
            × ((get now key c').1.misses ≡ add_u64 c.misses 1))
unfolding get get_entry put
get-put walk t now key value c =
    let new : Entry = record { value = value; inserted = t; last_used = t } in
    ground (
      arith,
      text_eq_iff key key,
      lookup-insert key key new (make_room walk key c),
      lookup-remove key key (insert key new (make_room walk key c)),
    )

abbrev NoZero : Text → Type 0
NoZero = All (λ b. b ≢ 0)

-- The keys of two calls are hashed from different bytes, unless they are calls of the same tool
-- with the same arguments, if names hold no zero byte.
pub hash_input-injective :
    (s t : Text) (a b : List ℕ)
    → NoZero s
    → NoZero t
    → hash_input s a ≡ hash_input t b
    → (s ≡ t) × (a ≡ b)
hash_input-injective [] [] a b p q e = (refl, cc)
hash_input-injective [] (y ∷ t) a b p q e = ground (arith, q.0)
hash_input-injective (x ∷ s) [] a b p q e = ground (arith, p.0)
hash_input-injective (x ∷ s) (y ∷ t) a b p q e =
    ground (arith, hash_input-injective s t a b p.1 q.1)
