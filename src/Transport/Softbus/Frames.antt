-- ===== src/Transport/Softbus/Frames.antt =====
-- Frames from a `FrameWriter` to a `FrameReader` over a session of the soft bus.
use Prim.Native.Nat.{min}
use ohmcp.Core.Frame.Prefix.{decode_few}
use ohmcp.Transport.Softbus.Carried.{no_length, left, read_all-left, read_all}
use ohmcp.Base.{
  ◌-◌, length-drop, drop, leb, ◌≤◌, All-append, arith, append_assoc, append-nil, map, ◌++◌, List,
  some, none, false, true, ◌∙◌, ap, subst, sym, refl, ◌≡◌, ◌<◌, suc, ℕ, ok, All, is_empty, length,
  if◌then◌else◌, [], ◌∷◌,
}
use ohmcp.Core.Frame.RoundTrip.{with_len, IsWire}
use ohmcp.Transport.Stream.{
  next_loop, next_frame, at_end, after_decode, bytes, Read, new_reader, next_frames, new_writer,
  queue_all,
}
use ohmcp.Transport.Softbus.{
  recv_bytes, poll_read, new_stream, send_bytes, SimSession, SessionStream, poll_write,
}
use ohmcp.Transport.Stream.Reading.{
  queue_all-buf, next_frames-wire, chunks, wire, NonEmpty, delivered,
}
use ohmcp.Core.Frame.{encode, Frame}

-- `flush` on a session: `poll_write` takes all of the buffer at once.
unfoldable pub flush_over : List ℕ → SessionStream → SessionStream
unfolding poll_write send_bytes
flush_over buf s = if is_empty buf then s else (poll_write buf s).1

-- Each batch of frames is queued and flushed.
unfoldable pub send_batches : List (List Frame) → SessionStream → SessionStream
unfolding flush_over queue_all
send_batches [] s = s
send_batches (fs ∷ batches) s = send_batches batches (flush_over (queue_all fs new_writer).buf s)

abbrev pub all_frames : List (List Frame) → List Frame
all_frames [] = []
all_frames (fs ∷ batches) = fs ++ all_frames batches

-- The other end of a session, when the peer has sent these chunks and gone.
abbrev pub other_end : List (List ℕ) → SimSession
other_end chunks = record { rx = chunks; tx = []; closed = true }

-- The session is open, and carried these bytes in chunks of which none is empty.
abbrev Carried : SessionStream → List ℕ → Type 0
Carried s b = (s.session.closed ≡ false) × (delivered s.session.tx ≡ b) × All NonEmpty s.session.tx

delivered_snoc : (cs : List (List ℕ)) (b : List ℕ) → delivered (cs ++ (b ∷ [])) ≡ delivered cs ++ b
delivered_snoc [] b = append-nil b
delivered_snoc (c ∷ cs) b =
    ap (λ l. c ++ l) (delivered_snoc cs b) ∙ sym (append_assoc c (delivered cs) b)

flush_over-Carried :
    (buf : List ℕ) (s : SessionStream) (b : List ℕ)
    → Carried s b
    → Carried (flush_over buf s) (b ++ buf)
unfolding flush_over poll_write send_bytes
flush_over-Carried [] s b c = (c.0, c.1 ∙ sym (append-nil b), c.2)
flush_over-Carried (x ∷ xs) s b c = rw c.0 (
  refl,
  delivered_snoc s.session.tx (x ∷ xs) ∙ ap (λ l. l ++ (x ∷ xs)) c.1,
  All-append NonEmpty s.session.tx ((x ∷ xs) ∷ []) c.2 (omega arith, tt),
)

wire-append : (fs gs : List Frame) → wire (fs ++ gs) ≡ wire fs ++ wire gs
wire-append [] gs = refl
wire-append (f ∷ fs) gs =
    ap (λ l. encode f [] ++ l) (wire-append fs gs)
    ∙ sym (append_assoc (encode f []) (wire fs) (wire gs))

send_batches-Carried :
    (batches : List (List Frame)) (s : SessionStream) (b : List ℕ)
    → Carried s b
    → Carried (send_batches batches s) (b ++ wire (all_frames batches))
unfolding send_batches
send_batches-Carried [] s b c = (c.0, c.1 ∙ sym (append-nil b), c.2)
send_batches-Carried (fs ∷ batches) s b c =
    let buf = (queue_all fs new_writer).buf in
    let (open_still, same, full) =
      send_batches-Carried batches (flush_over buf s) (b ++ buf) (flush_over-Carried buf s b c) in
    (
      open_still,
      same
          ∙ append_assoc b buf (wire (all_frames batches))
          ∙ ap (λ l. b ++ (l ++ wire (all_frames batches))) (queue_all-buf fs new_writer).0
          ∙ ap (λ l. b ++ l) (sym (wire-append fs (all_frames batches))),
      full,
    )

-- Frames that one end of a fresh session queues and flushes in any batches arrive in order at a
-- reader on the other end, followed by the end of the stream, whatever room each of its reads has, if
-- that is some room and the reads are enough.
pub next_frames-send_batches :
    (batches : List (List Frame)) (rooms : List ℕ) (s : SessionStream)
    → s.session ≡ record { rx = []; tx = []; closed = false }
    → All IsWire (all_frames batches)
    → All (λ n. 0 < n) rooms
    → length (wire (all_frames batches)) < length rooms
    → let sent = (send_batches batches s).session.tx in
      next_frames
        (suc (length (all_frames batches)))
        (new_reader (chunks (read_all rooms (new_stream (other_end sent)))))
      ≡ map (λ f. ok (some (with_len f))) (all_frames batches) ++ (ok none ∷ [])
next_frames-send_batches batches rooms s fresh ws r enough =
    let start : Carried s [] = (
      ap (λ (x : SimSession). x.closed) fresh,
      ap (λ (x : SimSession). delivered x.tx) fresh,
      subst (λ (x : SimSession). All NonEmpty x.tx) (sym fresh) tt,
    ) in
    let (open_still, same, full) = send_batches-Carried batches s [] start in
    let there = new_stream (other_end (send_batches batches s).session.tx) in
    let (got, nonempty) = read_all-left rooms there r full (omega (arith, ap length same)) in
    next_frames-wire (all_frames batches) (new_reader (chunks (read_all rooms there)))
      (read_all rooms there) ws nonempty refl (got ∙ same)

-- A chunk without bytes looks like the end of the stream: the read that comes to it returns no byte,
-- and a reader that has nothing else says that the stream has ended, while all bytes behind the chunk
-- are left.
pub next_frame-empty_chunk :
    (room : ℕ) (s : SessionStream) (rest : List (List ℕ)) (more : List Read)
    → s.session.rx ≡ [] ∷ rest
    → length s.pending ≤ s.pos
    → let (b, s') = poll_read room s in
      (b ≡ [])
      × ((next_frame (new_reader (bytes b ∷ more))).0 ≡ ok none)
      × (left s' ≡ left s)
      × (left s ≡ delivered rest)
unfolding poll_read recv_bytes next_frame next_loop at_end after_decode
next_frame-empty_chunk room s rest more e h =
    let behind : length s.pending - s.pos ≡ 0 = omega (arith, h) in
    let used : drop s.pos s.pending ≡ [] =
      no_length (drop s.pos s.pending) (length-drop s.pos s.pending ∙ behind) in
    let same = ap (λ l. l ++ delivered rest) used in
    let skip : leb (length s.pending) s.pos ≡ true = ground arith in
    let no_room : min 0 room ≡ 0 = omega arith in
    rw (skip, e, decode_few [] (omega arith), no_room) (refl, refl, sym same, same)
