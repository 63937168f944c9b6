-- ===== src/Tests/StreamRuns.antt =====
-- Readers and writers.
use ohmcp.Transport.Softbus.Frames.{
  next_frames-send_batches, next_frame-empty_chunk, send_batches, other_end,
}
use ohmcp.Transport.Softbus.{SessionStream, new_stream, poll_read}
use ohmcp.Base.{
  false, All, zero, suc, arith, ◌++◌, ◌∷◌, [], List, refl, ◌≡◌, ◌<◌, ◌^◌, ℕ, drop, take, ok, err,
  some, none, map,
}
use ohmcp.Core.MsgType.{pong, to_u8}
use ohmcp.Core.Error.{incomplete}
use ohmcp.Core.Frame.{Frame, encode}
use ohmcp.Transport.Softbus.Carried.{left, read_all}
use ohmcp.Fixtures.{replicate}
use ohmcp.Transport.Stream.{
  bytes, next_frames, next_frame, flush, queue_all, queue, write_buf, new_reader,
}
use ohmcp.Core.Frame.RoundTrip.{IsWire, with_len}
use ohmcp.Transport.Stream.Reading.{next_frames-flush, chunks}
use ohmcp.Transport.Stream.Ends.{next_frame_cut}

abbrev small : ℕ → Frame
small id = record {
  header = record { flags = 0; msg_type = pong; request_id = id; payload_len = 1 };
  payload = 9 ∷ [];
}

small-IsWire : (id : ℕ) → id < 2 ^ 64 → IsWire (small id)
small-IsWire id h = record { flags = omega arith; request_id = h; short = omega arith }

-- Two frames, in pieces of five bytes, of thirty, and of one.
abbrev both : List ℕ
both = encode (small 1) [] ++ (encode (small 2) [] ++ [])

abbrev pieces : List (List ℕ)
pieces = take 5 both ∷ take 30 (drop 5 both) ∷ drop 35 both ∷ []

next_frames-flush_example :
    next_frames 3 (new_reader (chunks pieces))
    ≡ map (λ f. ok (some (with_len f))) (small 1 ∷ small 2 ∷ []) ++ (ok none ∷ [])
unfolding flush queue_all queue write_buf encode to_u8
next_frames-flush_example =
    next_frames-flush (small 1 ∷ small 2 ∷ []) pieces
      (small-IsWire 1 (omega arith), (small-IsWire 2 (omega arith), tt)) (omega arith) refl

next_frame_cut_example :
    (next_frame (new_reader (chunks (take 10 (encode (small 1) []) ∷ [])))).0 ≡ err incomplete
unfolding encode
next_frame_cut_example =
    next_frame_cut (small 1) 10 (take 10 (encode (small 1) []) ∷ []) (small-IsWire 1 (omega arith))
      (omega arith) (omega arith) (omega arith) refl

-- Two batches over a session of the soft bus, read seven bytes at a time.
seven_at_a_time : (n : ℕ) → All (λ k. 0 < k) (replicate n 7)
seven_at_a_time zero = tt
seven_at_a_time (suc n) = (omega arith, seven_at_a_time n)

abbrev one_end : SessionStream
one_end = new_stream (record { rx = []; tx = []; closed = false })

next_frames-send_batches_example :
    next_frames 3 (
      new_reader (
        chunks (
          read_all (replicate 60 7) (
            new_stream (
              other_end
                (send_batches ((small 1 ∷ []) ∷ [] ∷ (small 2 ∷ []) ∷ []) one_end).session.tx)))))
    ≡ map (λ f. ok (some (with_len f))) (small 1 ∷ small 2 ∷ []) ++ (ok none ∷ [])
unfolding encode to_u8
next_frames-send_batches_example =
    next_frames-send_batches ((small 1 ∷ []) ∷ [] ∷ (small 2 ∷ []) ∷ []) (replicate 60 7) one_end
      refl (small-IsWire 1 (omega arith), (small-IsWire 2 (omega arith), tt)) (seven_at_a_time 60)
      (omega arith)

next_frame-empty_chunk_example :
    let (b, s') = poll_read 7 (new_stream (other_end ([] ∷ (1 ∷ 2 ∷ []) ∷ []))) in
    (b ≡ [])
    × ((next_frame (new_reader (bytes b ∷ []))).0 ≡ ok none)
    × (left s' ≡ 1 ∷ 2 ∷ [])
    × (left (new_stream (other_end ([] ∷ (1 ∷ 2 ∷ []) ∷ []))) ≡ 1 ∷ 2 ∷ [])
next_frame-empty_chunk_example =
    next_frame-empty_chunk 7 (new_stream (other_end ([] ∷ (1 ∷ 2 ∷ []) ∷ []))) ((1 ∷ 2 ∷ []) ∷ [])
      [] refl (omega arith)
