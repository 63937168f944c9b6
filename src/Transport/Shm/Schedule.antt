-- ===== src/Transport/Shm/Schedule.antt =====
-- One writer and one reader on a ring, with the references between them in the order of the stream:
-- any schedule of writes and reads hands over what was accepted, in order.
use ohmcp.Transport.Shm.Refs.{decode_shm_ref-encode_shm_ref}
use ohmcp.Transport.Shm.Fifo.{
  read_release-Holds, Chain-le, try_write-Holds, place_fits, try_write_parts, Holds,
}
use ohmcp.Transport.Shm.{
  max_shm_cap, fresh, ShmRing, try_write, read_release, encode_shm_ref, decode_shm_ref,
}
use ohmcp.Base.{
  arith, append_assoc, ◌∙◌, ap, subst, sym, refl, ◌≤◌, ◌++◌, ◌∷◌, [], List, some, none, Option, ◌≡◌,
  ◌<◌, ◌^◌, ◌%◌, ◌*◌, ◌+◌, ℕ, length,
}

pub data Event : Type 0 where
  produce : List ℕ → Event
  consume : Event

-- `refs` are the payloads of the SHM_REF frames on their way; `accepted` and `received` are logs.
pub record Link : Type 0 where
  pub ring : ShmRing
  pub refs : List (List ℕ)
  pub accepted : List (List ℕ)
  pub received : List (List ℕ)

-- The writer: a record that the ring does not take goes another way.
unfoldable pub after_write : Link → List ℕ → Option (ℕ × ShmRing) → Link
after_write l d none = l
after_write l d (some (offset, ring)) = record l {
  ring = ring;
  refs = l.refs ++ (encode_shm_ref offset (length d % 2 ^ 32) ∷ []);
  accepted = l.accepted ++ (d ∷ []);
}

-- The reader: a bad reference ends the session, and nothing is received any more.
unfoldable pub after_read : Link → Option (List ℕ × ShmRing) → Link
after_read l none = l
after_read l (some (d, ring)) = record l { ring = ring; received = l.received ++ (d ∷ []) }

unfoldable pub read_ref : Link → Option (ℕ × ℕ) → Link
unfolding after_read
read_ref l none = l
read_ref l (some (offset, len)) = after_read l (read_release offset len l.ring)

unfoldable pub consume_ref : Link → List (List ℕ) → Link
unfolding read_ref
consume_ref l [] = l
consume_ref l (p ∷ refs) = read_ref (record l { refs = refs }) (decode_shm_ref p)

unfoldable pub step : Link → Event → Link
unfolding after_write consume_ref
step l (produce d) = after_write l d (try_write d l.ring)
step l consume = consume_ref l l.refs

unfoldable pub run : Link → List Event → Link
run l [] = l
run l (e ∷ es) = run (step l e) es

-- The payloads of references to records.
abbrev pub refs_of : List (ℕ × List ℕ) → List (List ℕ)
refs_of [] = []
refs_of ((off, d) ∷ q) = encode_shm_ref off (length d % 2 ^ 32) ∷ refs_of q

abbrev pub payloads : List (ℕ × List ℕ) → List (List ℕ)
payloads [] = []
payloads ((off, d) ∷ q) = d ∷ payloads q

-- The records in the ring are those that are on their way, and they are what has been accepted and
-- not received.
pub record InOrder (l : Link) : Type 0 where
  pub pending : List (ℕ × List ℕ)
  pub holds : Holds l.ring pending
  pub on_the_way : l.refs ≡ refs_of pending
  pub logs : l.accepted ≡ l.received ++ payloads pending

refs_of-append :
    (q : List (ℕ × List ℕ)) (off : ℕ) (d : List ℕ)
    → refs_of (q ++ ((off, d) ∷ [])) ≡ refs_of q ++ (encode_shm_ref off (length d % 2 ^ 32) ∷ [])
refs_of-append [] off d = refl
refs_of-append ((o, x) ∷ q) off d =
    ap (λ l. encode_shm_ref o (length x % 2 ^ 32) ∷ l) (refs_of-append q off d)

payloads-append :
    (q : List (ℕ × List ℕ)) (off : ℕ) (d : List ℕ)
    → payloads (q ++ ((off, d) ∷ [])) ≡ payloads q ++ (d ∷ [])
payloads-append [] off d = refl
payloads-append ((o, x) ∷ q) off d = ap (λ l. x ∷ l) (payloads-append q off d)

-- The ring keeps its size, and its head moves on by at most two laps.
record Moves (l l' : Link) : Type 0 where
  same_cap : l'.ring.cap ≡ l.ring.cap
  head_moves : l'.ring.head ≤ l.ring.head + 2 * l.ring.cap

after_write-InOrder :
    (l : Link) (d : List ℕ) (o : Option (ℕ × ShmRing))
    → InOrder l
    → l.ring.head + 2 * l.ring.cap < 2 ^ 64
    → try_write d l.ring ≡ o
    → InOrder (after_write l d o) × Moves l (after_write l d o)
unfolding after_write
after_write-InOrder l d none v h e = (v, record { same_cap = refl; head_moves = omega arith })
after_write-InOrder l d (some (off, r')) v h e =
    let (at_place, ring, n, fits, room) = try_write_parts l.ring d off r' e in
    let (lo, whole, hi) = place_fits l.ring (length d) v.holds.positive fits h in
    (
      record {
        pending = v.pending ++ ((off, d) ∷ []);
        holds = try_write-Holds l.ring v.pending d off r' v.holds h e;
        on_the_way =
            ap (λ x. x ++ (encode_shm_ref off (length d % 2 ^ 32) ∷ [])) v.on_the_way
            ∙ sym (refs_of-append v.pending off d);
        logs =
            ap (λ x. x ++ (d ∷ [])) v.logs
            ∙ append_assoc l.received (payloads v.pending) (d ∷ [])
            ∙ ap (λ x. l.received ++ x) (sym (payloads-append v.pending off d));
      },
      record {
        same_cap = ap (λ (x : ShmRing). x.cap) ring;
        head_moves = omega (arith, ap (λ (x : ShmRing). x.head) ring, at_place);
      },
    )

read_ref_first :
    (l : Link) (q : List (ℕ × List ℕ)) (off : ℕ) (d : List ℕ)
    → Holds l.ring ((off, d) ∷ q)
    → l.ring.head < 2 ^ 64
    → read_ref l (decode_shm_ref (encode_shm_ref off (length d % 2 ^ 32))) ≡ record l {
      ring = record (l.ring) { tail = off + length d };
      received = l.received ++ (d ∷ []);
    }
unfolding read_ref after_read
read_ref_first l q off d v h =
    let behind = Chain-le l.ring.cap l.ring.bytes (off + length d) l.ring.head q v.chain.4 in
    let short : length d % 2 ^ 32 ≡ length d = omega (arith, v.chain.2, v.small) in
    let back =
      decode_shm_ref-encode_shm_ref off (length d % 2 ^ 32) (omega (arith, v.chain.1))
        (omega arith) in
    rw (back.1, short, (read_release-Holds l.ring q d off v h).0)

consume_ref-InOrder :
    (l : Link) (q : List (ℕ × List ℕ))
    → Holds l.ring q
    → l.refs ≡ refs_of q
    → l.accepted ≡ l.received ++ payloads q
    → l.ring.head < 2 ^ 64
    → InOrder (consume_ref l (refs_of q)) × Moves l (consume_ref l (refs_of q))
unfolding consume_ref
consume_ref-InOrder l [] v w g h = (
  record { pending = []; holds = v; on_the_way = w; logs = g },
  record { same_cap = refl; head_moves = omega arith },
)
consume_ref-InOrder l ((off, d) ∷ q) v w g h =
    subst (λ x. InOrder x × Moves l x)
      (sym (read_ref_first (record l { refs = refs_of q }) q off d v h))
      (
        record {
          pending = q;
          holds = (read_release-Holds l.ring q d off v h).1;
          on_the_way = refl;
          logs = g ∙ sym (append_assoc l.received (d ∷ []) (payloads q));
        },
        record { same_cap = refl; head_moves = omega arith },
      )

step-InOrder :
    (l : Link) (e : Event)
    → InOrder l
    → l.ring.head + 2 * l.ring.cap < 2 ^ 64
    → InOrder (step l e) × Moves l (step l e)
unfolding step
step-InOrder l (produce d) v h = after_write-InOrder l d (try_write d l.ring) v h refl
step-InOrder l consume v h =
    subst (λ x. InOrder (consume_ref l x) × Moves l (consume_ref l x)) (sym v.on_the_way)
      (consume_ref-InOrder l v.pending v.holds v.on_the_way v.logs (omega arith))

run-InOrder :
    (es : List Event) (l : Link)
    → InOrder l
    → l.ring.head + 2 * length es * l.ring.cap < 2 ^ 64
    → InOrder (run l es)
unfolding run
run-InOrder [] l v h = v
run-InOrder (e ∷ es) l v h =
    let (w, m) = step-InOrder l e v (grind arith) in
    run-InOrder es (step l e) w (rw m.same_cap (omega (arith, m.head_moves)))

-- A link with a fresh ring of a legal size, on which nothing has been sent.
abbrev pub new_link : ℕ → Link
new_link cap = record { ring = fresh cap; refs = []; accepted = []; received = [] }

-- After any schedule of writes and reads on a fresh ring, what the reader received is a prefix of
-- what the writer had accepted, in the same order, and what lacks is what is still on its way; so
-- no record is lost, changed, repeated or overtaken. The bound says that the counters do not wrap.
pub run-in_order :
    (cap : ℕ) (es : List Event)
    → 0 < cap
    → cap ≤ max_shm_cap
    → 2 * length es * cap < 2 ^ 64
    → (q : List (ℕ × List ℕ)) × ((run (new_link cap) es).accepted
        ≡ (run (new_link cap) es).received ++ payloads q)
      × ((run (new_link cap) es).refs ≡ refs_of q)
run-in_order cap es p s h =
    let v =
      run-InOrder es (new_link cap)
        (record {
          pending = [];
          holds = record { positive = p; small = s; room = omega arith; chain = refl };
          on_the_way = refl;
          logs = refl;
        })
        (omega arith) in
    (v.pending, v.logs, v.on_the_way)
