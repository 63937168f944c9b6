-- ===== src/Transport/Shm/Handover.antt =====
-- One record, from the writer of an empty ring to its reader.
use ohmcp.Base.{ℕ, ◌+◌, ◌*◌, ◌%◌, ◌^◌, ◌<◌, ◌≡◌, ap, arith, List, [], some, length}
use ohmcp.Transport.Shm.{ShmRing, try_write, read_release, encode_shm_ref, decode_shm_ref}
use ohmcp.Transport.Shm.Fifo.{
  Holds, place_fits, try_write_parts, try_write-Holds, read_release-Holds,
}
use ohmcp.Transport.Shm.Refs.{decode_shm_ref-encode_shm_ref}

-- The ring has room for counting two laps more.
abbrev pub Counts : ShmRing → Type 0
Counts r = r.head + 2 * r.cap < 2 ^ 64

module _ (r : ShmRing) (d : List ℕ) (off : ℕ) (r' : ShmRing) (drained : Holds r [])
    (counts : Counts r) (wrote : try_write d r ≡ some (off, r')) where
  -- The reference is read back, the record is read whole, and the ring is empty again.
  pub handover :
      (decode_shm_ref (encode_shm_ref off (length d % 2 ^ 32)) ≡ some (off, length d))
      × (read_release off (length d) r' ≡ some (d, record r' { tail = off + length d }))
      × Holds (record r' { tail = off + length d }) []
  handover =
      let (at_place, ring, n, l, room) = try_write_parts r d off r' wrote in
      let fits = place_fits r (length d) drained.positive l counts in
      let head_small : r'.head < 2 ^ 64 = omega (arith, ap (λ (x : ShmRing). x.head) ring) in
      let e : length d % 2 ^ 32 ≡ length d = omega (arith, drained.small) in
      let read =
        read_release-Holds r' [] d off (try_write-Holds r [] d off r' drained counts wrote)
          head_small in
      (
        rw e (
            (decode_shm_ref-encode_shm_ref off (length d) (omega arith)
              (omega (arith, drained.small))).1),
        read.0,
        read.1,
      )
