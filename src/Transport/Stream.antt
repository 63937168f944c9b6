-- ===== src/Transport/Stream.antt =====
-- crates/ohmcp-transport/src/lib.rs: `FrameReader` and `FrameWriter`.
-- The stream below is a parameter: the list of what its reads will return, and the outcome of each
-- write. A read that returns no byte, and every read past the list, is the end of the stream.
pub mod Ends
pub mod Reading
use ohmcp.Base.Words.{add_u64}
use ohmcp.Base.{
  ℕ, zero, suc, ◌+◌, ◌%◌, ◌^◌, ◌==◌, Result, ok, err, Option, none, some, List, [], ◌∷◌, ◌++◌,
  length, take, is_empty, if◌then◌else◌,
}
use ohmcp.Base.Bytes.{Text}
use ohmcp.Core.Error.{CoreError, incomplete, codec}
use ohmcp.Core.Frame.{Frame, encode, decode}

-- What one `read_buf` of the stream returns; an I/O error comes with its text.
pub data Read : Type 0 where
  bytes : List ℕ → Read
  failed : Text → Read

pub record FrameReader : Type 0 where
  pub inner : List Read
  pub buf : List ℕ
  pub bytes_read : ℕ

abbrev pub new_reader : List Read → FrameReader
new_reader inner = record { inner = inner; buf = []; bytes_read = 0 }

unfoldable pub next_buffered : FrameReader → Result CoreError (Option Frame) × FrameReader
next_buffered r = let (d, buf') = decode r.buf in (d, record r { buf = buf' })

-- One round of the loop of `next_frame`: what `decode` said, and what a round goes on with when it
-- said that bytes lack.
unfoldable pub after_decode :
    Result CoreError (Option Frame)
    → FrameReader
    → Result CoreError (Option Frame) × FrameReader
    → Result CoreError (Option Frame) × FrameReader
after_decode (err e) r more = (err e, r)
after_decode (ok (some f)) r more = (ok (some f), r)
after_decode (ok none) r more = more

-- The read returned no byte.
unfoldable pub at_end : FrameReader → Result CoreError (Option Frame) × FrameReader
at_end r = if is_empty r.buf then (ok none, r) else (err incomplete, r)

abbrev pub with_buf : FrameReader → FrameReader
with_buf r = record r { buf = (decode r.buf).1 }

-- The loop of `next_frame`, by the reads that are left.
unfoldable pub next_loop : List Read → List ℕ → ℕ → Result CoreError (Option Frame) × FrameReader
unfolding after_decode at_end
next_loop [] buf n =
    let r : FrameReader = record { inner = []; buf = (decode buf).1; bytes_read = n } in
    after_decode (decode buf).0 r (at_end r)
next_loop (failed e ∷ inner) buf n =
    let r : FrameReader = record {
      inner = failed e ∷ inner;
      buf = (decode buf).1;
      bytes_read = n;
    } in
    after_decode (decode buf).0 r (err (codec e), record r { inner = inner })
next_loop (bytes b ∷ inner) buf n =
    let r : FrameReader = record {
      inner = bytes b ∷ inner;
      buf = (decode buf).1;
      bytes_read = n;
    } in
    let grown = next_loop inner ((decode buf).1 ++ b) (add_u64 n (length b)) in
    let more = if length b == 0 then at_end (record r { inner = inner }) else grown in
    after_decode (decode buf).0 r more

unfoldable pub next_frame : FrameReader → Result CoreError (Option Frame) × FrameReader
unfolding next_loop
next_frame r = next_loop r.inner r.buf r.bytes_read

-- The outcome of a `write_all` on the stream: a failure may have sent some of the bytes.
pub data Write : Type 0 where
  written : Write
  broken : ℕ → Text → Write

-- `sent` is what has gone into the stream.
pub record FrameWriter : Type 0 where
  pub sent : List ℕ
  pub buf : List ℕ
  pub bytes_written : ℕ

abbrev pub new_writer : FrameWriter
new_writer = record { sent = []; buf = []; bytes_written = 0 }

unfoldable pub queue : Frame → FrameWriter → FrameWriter
queue f w = record w { buf = encode f w.buf }

unfoldable pub write_buf : Write → FrameWriter → Result CoreError (Unit {0}) × FrameWriter
write_buf written w = (
  ok tt,
  record {
    sent = w.sent ++ w.buf;
    buf = [];
    bytes_written = add_u64 w.bytes_written (length w.buf);
  },
)
write_buf (broken k e) w = (err (codec e), record w { sent = w.sent ++ take k w.buf })

unfoldable pub flush : Write → FrameWriter → Result CoreError (Unit {0}) × FrameWriter
unfolding write_buf
flush o w = if is_empty w.buf then (ok tt, w) else write_buf o w

unfoldable pub send : Write → Frame → FrameWriter → Result CoreError (Unit {0}) × FrameWriter
unfolding queue flush
send o f w = flush o (queue f w)

-- The results of `n` calls of `next_frame`, one after the other.
unfoldable pub next_frames : ℕ → FrameReader → List (Result CoreError (Option Frame))
next_frames zero r = []
next_frames (suc n) r = (next_frame r).0 ∷ next_frames n (next_frame r).1

unfoldable pub queue_all : List Frame → FrameWriter → FrameWriter
queue_all [] w = w
queue_all (f ∷ fs) w = queue_all fs (queue f w)
