-- ===== src/Transport/Shm/Space.antt =====
-- What the ring refuses, and what it should not accept.
use ohmcp.Base.Words.{add_u64}
use ohmcp.Base.{arith, List, some, none, ◌≡◌, ◌<◌, ◌≤◌, ◌^◌, ◌%◌, ◌*◌, ◌-◌, ◌+◌, ℕ, length}
use native.Mathlib.Nat.{mod-lt}
use ohmcp.Transport.Shm.{ShmRing, place, try_write, read_release, copy_out, default_shm_cap}
use ohmcp.Transport.Shm.Fifo.{written_at}

-- A ring whose records have all been read takes every record of at most half its size.
pub try_write_half :
    (r : ShmRing) (d : List ℕ)
    → r.tail ≡ r.head
    → r.head + 2 * r.cap < 2 ^ 64
    → 0 < length d
    → 2 * length d ≤ r.cap
    → try_write d r ≡ some (place r (length d), written_at r d (place r (length d)))
unfolding try_write place
try_write_half r d e h n l = ground (arith, mod-lt r.head {m = r.cap} (omega arith))

-- A ring whose records have all been read refuses a record that does not fit on either side of the
-- head: behind it on this lap, or before it on the next.
pub try_write_refused :
    (r : ShmRing) (d : List ℕ)
    → r.tail ≡ r.head
    → r.head + 2 * r.cap < 2 ^ 64
    → 0 < r.cap
    → r.cap < r.head % r.cap + length d
    → r.head % r.cap < length d
    → try_write d r ≡ none
unfolding try_write place
try_write_refused r d e h p fit n = ground (arith, mod-lt r.head p)

-- What is read ends at or before the head, as long as the end of the record does not wrap.
pub read_release_bounds :
    (r r' : ShmRing) (offset len : ℕ) (d : List ℕ)
    → offset + len < 2 ^ 64
    → read_release offset len r ≡ some (d, r')
    → (offset + len ≤ r.head)
      × (offset % r.cap + len ≤ r.cap)
      × (d ≡ copy_out r.bytes (offset % r.cap) len)
      × (r' ≡ record r { tail = offset + len })
unfolding read_release
read_release_bounds r r' offset len d h e = ground arith

-- A reference whose end wraps round 2 ^ 64 passes every test, on a ring of the default size in any
-- state: the read returns the last bytes of the memory, written or not, and sets the tail to zero.
pub read_release_wrapped :
    (r : ShmRing) (len : ℕ)
    → r.cap ≡ default_shm_cap
    → 0 < len
    → len ≤ r.cap
    → read_release (2 ^ 64 - len) len r
      ≡ some (copy_out r.bytes (r.cap - len) len, record r { tail = 0 })
unfolding read_release
read_release_wrapped r len c p l =
    let spot : (2 ^ 64 - len) % r.cap ≡ r.cap - len = rw c (omega arith) in
    let end : add_u64 (2 ^ 64 - len) len ≡ 0 = omega arith in ground (arith, spot, end)
