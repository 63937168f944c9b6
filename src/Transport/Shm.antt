-- ===== src/Transport/Shm.antt =====
-- crates/ohmcp-transport/src/shm.rs: the ring in a shared memfd, and the references to its records.
-- The system calls are parameters: the outcomes of `memfd_create`, `ftruncate` and `mmap`. `u64`
-- arithmetic wraps, as it does in a release build.
pub mod Memory
pub mod Fifo
pub mod Space
pub mod Refs
pub mod Handover
pub mod Schedule
use ohmcp.Base.Words.{sub_u64, add_u64}
use ohmcp.Base.{
  ℕ, zero, suc, ◌+◌, ◌-◌, ◌*◌, ◌%◌, ◌^◌, Bool, ◌&&◌, ◌||◌, not, Option, none, some, List, [], ◌∷◌,
  ◌++◌, length, take, drop, ltb, leb, ◌==◌, if◌then◌else◌,
}
use ohmcp.Base.Bytes.{to_le_bytes, from_le_bytes}

abbrev pub default_shm_cap : ℕ
default_shm_cap = 4 * 1024 * 1024

abbrev pub max_shm_cap : ℕ
max_shm_cap = 64 * 1024 * 1024

abbrev pub shm_threshold : ℕ
shm_threshold = 16 * 1024

-- The mapped file: the two counters of its header, and the bytes behind it.
pub record ShmRing : Type 0 where
  pub cap : ℕ
  pub head : ℕ
  pub tail : ℕ
  pub bytes : ℕ → ℕ

-- A fresh memfd is filled with zeros.
abbrev pub fresh : ℕ → ShmRing
fresh cap = record { cap = cap; head = 0; tail = 0; bytes = λ _. 0 }

-- `assert!` panics.
pub data Created : Type 0 where
  panicked : Created
  failed : Created
  created : ShmRing → Created

-- The outcomes of the three system calls whose failure is returned.
pub record Calls : Type 0 where
  pub memfd_create : Bool
  pub ftruncate : Bool
  pub mmap : Bool

unfoldable pub create : Calls → ℕ → Created
create calls cap =
    if not (ltb 0 cap && leb cap max_shm_cap)
    then panicked
    else if calls.memfd_create && calls.ftruncate && calls.mmap
    then created (fresh cap)
    else failed

-- The ring is that of the peer, whose file the descriptor names.
unfoldable pub from_fd : Bool → ShmRing → ℕ → Option ShmRing
from_fd mmap peer cap =
    if cap == 0 || ltb max_shm_cap cap
    then none
    else if mmap
    then some (record peer { cap = cap })
    else none

-- `copy_nonoverlapping` into the ring and out of it.
unfoldable pub copy_in : (ℕ → ℕ) → ℕ → List ℕ → ℕ → ℕ
copy_in mem p [] i = mem i
copy_in mem p (x ∷ xs) i = if i == p then x else copy_in mem (suc p) xs i

unfoldable pub copy_out : (ℕ → ℕ) → ℕ → ℕ → List ℕ
copy_out mem p zero = []
copy_out mem p (suc n) = mem p ∷ copy_out mem (suc p) n

-- Where a record of `len` bytes goes: the next lap, if it does not fit before the end of this one.
unfoldable pub place : ShmRing → ℕ → ℕ
place r len =
    if ltb r.cap (r.head % r.cap + len) then add_u64 r.head (r.cap - r.head % r.cap) else r.head

-- The offset of the record, and the ring afterwards.
unfoldable pub try_write : List ℕ → ShmRing → Option (ℕ × ShmRing)
try_write payload r =
    let len = length payload in
    let pos = place r len in
    if len == 0 || ltb r.cap len
    then none
    else if ltb r.cap (sub_u64 (add_u64 pos len) r.tail)
    then none
    else some
        (pos, record r { bytes = copy_in r.bytes (pos % r.cap) payload; head = add_u64 pos len })

unfoldable pub read_release : ℕ → ℕ → ShmRing → Option (List ℕ × ShmRing)
read_release offset len r =
    if len == 0 || (ltb r.cap len || ltb r.cap (offset % r.cap + len))
    then none
    else if ltb r.head (add_u64 offset len)
    then none
    else some (copy_out r.bytes (offset % r.cap) len, record r { tail = add_u64 offset len })

-- The payload of an SHM_REF frame.
unfoldable pub encode_shm_ref : ℕ → ℕ → List ℕ
encode_shm_ref offset len = to_le_bytes 8 offset ++ to_le_bytes 4 len

unfoldable pub decode_shm_ref : List ℕ → Option (ℕ × ℕ)
decode_shm_ref payload =
    if not (length payload == 12)
    then none
    else some (from_le_bytes (take 8 payload), from_le_bytes (drop 8 payload))
