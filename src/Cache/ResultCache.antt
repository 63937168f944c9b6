-- ===== src/Cache/ResultCache.antt =====
-- crates/ohmcp-cache/src/result_cache.rs. The clock is an argument of each operation; SHA-256 and
-- the order in which a `HashMap` is walked are parameters.
pub mod Bounded
pub mod Sound
use ohmcp.Base.Words.{add_u64}
use ohmcp.Base.{
  ◌++◌, ◌∷◌, [], List, ◌&&◌, not, true, ◌≡◌, ◌-◌, ◌+◌, ℕ, All, take, length, if◌then◌else◌, ◌==◌,
  leb, ltb, Option, none, some,
}
use ohmcp.Base.Bytes.{Text}
use ohmcp.Base.Equality.{text_equality}
use ohmcp.Base.Maps.{lookup, insert, remove, contains_key}

abbrev pub CacheKey : Type 0
CacheKey = List ℕ

-- What is hashed: the tool, a zero byte, the arguments.
abbrev pub hash_input : Text → List ℕ → List ℕ
hash_input tool_name canonical_args = tool_name ++ (0 ∷ canonical_args)

unfoldable pub compute : (List ℕ → List ℕ) → Text → List ℕ → CacheKey
compute sha256 tool_name canonical_args = sha256 (hash_input tool_name canonical_args)

unfoldable pub from_slice : List ℕ → Option CacheKey
from_slice s = if length s == 32 then some s else none

pub record Entry : Type 0 where
  pub value : List ℕ
  pub inserted : ℕ
  pub last_used : ℕ

abbrev pub Entries : Type 0
Entries = List (CacheKey × Entry)

pub record ResultCache : Type 0 where
  pub entries : Entries
  pub capacity : ℕ
  pub ttl : ℕ
  pub hits : ℕ
  pub misses : ℕ

-- The order in which a map is walked: every entry, and no other.
pub record Walk : Type 0 where
  pub iter : Entries → Entries
  pub walks_keys : (m : Entries) → All (λ x. contains_key x.0 m ≡ true) (iter m)
  pub walks_all : (m : Entries) → length (iter m) ≡ length m

unfoldable pub new : ℕ → ℕ → ResultCache
new capacity ttl = record { entries = []; capacity = capacity; ttl = ttl; hits = 0; misses = 0 }

abbrev pub count_miss : ResultCache → ResultCache
count_miss c = record c { misses = add_u64 c.misses 1 }

-- An entry found: `now.duration_since(e.inserted)` is zero if the clock went back.
unfoldable pub get_entry : ℕ → CacheKey → ResultCache → Option Entry → Option (List ℕ) × ResultCache
get_entry now key c none = (none, count_miss c)
get_entry now key c (some e) =
    if leb (now - e.inserted) c.ttl
    then (
      some e.value,
      record c {
        entries = insert key (record e { last_used = now }) c.entries;
        hits = add_u64 c.hits 1;
      },
    )
    else (none, count_miss (record c { entries = remove key c.entries }))

unfoldable pub get : ℕ → CacheKey → ResultCache → Option (List ℕ) × ResultCache
get now key c = get_entry now key c (lookup key c.entries)

-- `min_by_key` on the time of the last use: the first of the least.
unfoldable pub least_used : CacheKey × Entry → Entries → CacheKey × Entry
least_used best [] = best
least_used best (x ∷ xs) = least_used (if ltb x.1.last_used best.1.last_used then x else best) xs

unfoldable pub victim : Entries → Option CacheKey
unfolding least_used
victim [] = none
victim (x ∷ xs) = some (least_used x xs).0

unfoldable pub evict : Option CacheKey → Entries → Entries
evict none m = m
evict (some k) m = remove k m

module _ (walk : Walk) where
  unfoldable pub evict_lru : Entries → Entries
  unfolding victim evict
  evict_lru m = evict (victim (take 8 (walk.iter m))) m

  -- The entries before a `put` stores: one goes if there is no room for a new key.
  unfoldable pub make_room : CacheKey → ResultCache → Entries
  make_room key c =
      if leb c.capacity (length c.entries) && not (contains_key key c.entries)
      then evict_lru c.entries
      else c.entries

  unfoldable pub put : ℕ → CacheKey → List ℕ → ResultCache → ResultCache
  put now key value c = record c {
    entries =
        insert key (record { value = value; inserted = now; last_used = now }) (make_room key c);
  }
