-- ===== src/Tests/ShmRuns.antt =====
-- The shared-memory ring.
use ohmcp.Base.{arith, ◌++◌, ◌∷◌, [], List, refl, ◌≡◌, ◌^◌, ◌-◌, ℕ, some, none}
use ohmcp.Transport.Shm.{
  ShmRing, fresh, place, try_write, read_release, copy_in, copy_out, encode_shm_ref, decode_shm_ref,
  default_shm_cap,
}
use ohmcp.Transport.Shm.Fifo.{Holds, try_write-Holds, written_at}
use ohmcp.Transport.Shm.Space.{try_write_half, try_write_refused, read_release_wrapped}
use ohmcp.Transport.Shm.Schedule.{
  run, step, new_link, produce, consume, run-in_order, after_write, consume_ref, read_ref,
  after_read, refs_of, payloads, Event,
}

-- Eight bytes, of which five were written and read.
abbrev moved_on : ShmRing
moved_on = record { cap = 8; head = 5; tail = 5; bytes = λ _. 0 }

abbrev ring_of : ℕ → ShmRing
ring_of cap = fresh cap

write_read :
    read_release 0 2 (written_at (fresh 8) (7 ∷ 9 ∷ []) 0)
    ≡ some (7 ∷ 9 ∷ [], record (written_at (fresh 8) (7 ∷ 9 ∷ []) 0) { tail = 2 })
unfolding read_release copy_in copy_out
write_read = refl

-- A record that does not fit behind the head goes to the start of the next lap.
skips_to_next_lap : place moved_on 4 ≡ 8
unfolding place
skips_to_next_lap = refl

fresh_written : try_write (7 ∷ 9 ∷ []) (fresh 8) ≡ some (0, written_at (fresh 8) (7 ∷ 9 ∷ []) 0)
unfolding try_write place
fresh_written = refl

fresh-Holds : Holds (fresh 8) []
fresh-Holds = record {
  positive = omega arith;
  small = omega arith;
  room = omega arith;
  chain = refl;
}

try_write-Holds_example : Holds (written_at (fresh 8) (7 ∷ 9 ∷ []) 0) ([] ++ ((0, 7 ∷ 9 ∷ []) ∷ []))
try_write-Holds_example =
    try_write-Holds (fresh 8) [] (7 ∷ 9 ∷ []) 0 (written_at (fresh 8) (7 ∷ 9 ∷ []) 0) fresh-Holds
      (omega arith) fresh_written

abbrev script : List Event
script =
    produce (1 ∷ 2 ∷ 3 ∷ [])
    ∷ produce (4 ∷ 5 ∷ [])
    ∷ consume
    ∷ produce (6 ∷ 7 ∷ 8 ∷ 9 ∷ [])
    ∷ consume
    ∷ []

script_received : (run (new_link 8) script).received ≡ (1 ∷ 2 ∷ 3 ∷ []) ∷ (4 ∷ 5 ∷ []) ∷ []
unfolding run step after_write consume_ref read_ref after_read try_write place read_release
    encode_shm_ref decode_shm_ref copy_in copy_out
script_received = refl

run-in_order_example :
    (q : List (ℕ × List ℕ)) × ((run (new_link 8) script).accepted
      ≡ (run (new_link 8) script).received ++ payloads q)
    × ((run (new_link 8) script).refs ≡ refs_of q)
run-in_order_example = run-in_order 8 script (omega arith) (omega arith) (omega arith)

try_write_half_example :
    try_write (1 ∷ 2 ∷ 3 ∷ 4 ∷ []) moved_on
    ≡ some (place moved_on 4, written_at moved_on (1 ∷ 2 ∷ 3 ∷ 4 ∷ []) (place moved_on 4))
try_write_half_example =
    try_write_half moved_on (1 ∷ 2 ∷ 3 ∷ 4 ∷ []) refl (omega arith) (omega arith) (omega arith)

try_write_refused_example : try_write (1 ∷ 2 ∷ 3 ∷ 4 ∷ 5 ∷ 6 ∷ []) moved_on ≡ none
try_write_refused_example =
    try_write_refused moved_on (1 ∷ 2 ∷ 3 ∷ 4 ∷ 5 ∷ 6 ∷ []) refl (omega arith) (omega arith)
      (omega arith) (omega arith)

read_release_wrapped_example :
    read_release (2 ^ 64 - 16) 16 (ring_of default_shm_cap)
    ≡ some
        (copy_out (λ _. 0) (default_shm_cap - 16) 16, record (ring_of default_shm_cap) { tail = 0 })
read_release_wrapped_example =
    read_release_wrapped (ring_of default_shm_cap) 16 refl (omega arith) (omega arith)
