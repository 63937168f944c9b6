-- ===== src/Tests/CacheRuns.antt =====
-- The result cache and compression.
use ohmcp.Cache.ResultCache.Sound.{Stored, IsSound, put-IsSound, get_hit, get-put}
use ohmcp.Base.{arith, ◌∷◌, [], refl, ◌≡◌, ◌<◌, ◌≤◌, ◌-◌, ℕ, some, none}
use ohmcp.Base.Bytes.{ascii}
use ohmcp.Base.Maps.{lookup, insert, remove, contains_key}
use ohmcp.Base.Equality.{text_equality}
use ohmcp.Cache.ResultCache.{
  CacheKey, ResultCache, get, put, make_room, evict_lru, victim, least_used, evict, get_entry,
}
use ohmcp.Cache.ResultCache.Bounded.{IsBounded, put-IsBounded}
use ohmcp.Fixtures.{stored_order}

abbrev key_one : CacheKey
key_one = 1 ∷ []

abbrev empty : ResultCache
empty = record { entries = []; capacity = 2; ttl = 10; hits = 0; misses = 0 }

abbrev one_stored : ResultCache
one_stored = put stored_order 1 (1 ∷ []) (ascii "a") empty

-- The least recently used of two entries goes: the first was used by the `get`.
lru_eviction :
    let c =
      put stored_order 4
        (3 ∷ [])
        (ascii "c")
        (get 3 (1 ∷ []) (put stored_order 2 (2 ∷ []) (ascii "b") one_stored)).1 in
    ((get 5 (2 ∷ []) c).0 ≡ none) × ((get 5 (1 ∷ []) c).0 ≡ some (ascii "a"))
unfolding put make_room evict_lru victim least_used evict get get_entry lookup insert remove
    contains_key
lru_eviction = (refl, refl)

empty-IsSound : IsSound empty []
unfolding lookup
empty-IsSound = record { known = λ k e h. cc }

put-IsBounded_example : IsBounded one_stored
put-IsBounded_example = put-IsBounded stored_order 1 (1 ∷ []) (ascii "a") empty (omega arith)

put-IsSound_example : IsSound one_stored (insert (1 ∷ []) (ascii "a", 1) [])
put-IsSound_example = put-IsSound stored_order 1 (1 ∷ []) (ascii "a") empty [] empty-IsSound

abbrev one_record : Stored
one_record = insert (1 ∷ []) (ascii "a", 1) []

one_hit : (get 9 (1 ∷ []) one_stored).0 ≡ some (ascii "a")
unfolding put make_room evict_lru victim least_used evict get get_entry lookup insert remove
    contains_key
one_hit = refl

get_hit_example :
    (t : ℕ) × (lookup key_one one_record ≡ some (ascii "a", t)) × (9 - t ≤ one_stored.ttl)
get_hit_example =
    get_hit 9 key_one (ascii "a") one_stored one_record
      (put-IsSound stored_order 1 key_one (ascii "a") empty [] empty-IsSound) one_hit

get-put_example :
    let c' = one_stored in
    (9 - 1 ≤ 10 → ((get 9 (1 ∷ []) c').0 ≡ some (ascii "a")) × ((get 9 (1 ∷ []) c').1.hits ≡ 1))
    × (10 < 9 - 1
        → ((get 9 (1 ∷ []) c').0 ≡ none)
          × (lookup (1 ∷ []) (get 9 (1 ∷ []) c').1.entries ≡ none)
          × ((get 9 (1 ∷ []) c').1.misses ≡ 1))
get-put_example = get-put stored_order 1 9 (1 ∷ []) (ascii "a") empty
