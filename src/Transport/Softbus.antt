-- ===== src/Transport/Softbus.antt =====
-- crates/ohmcp-transport/src/softbus.rs: `SimSession`, a session of the soft bus inside one process,
-- and `SessionStream`, which makes a stream of any session. A session that has nothing to give yet is
-- polled again; here it is what it gives at last.
pub mod Carried
pub mod Frames
use Prim.Native.Nat.{min}
use ohmcp.Base.{
  ◌++◌, ◌∷◌, [], List, some, none, Option, Bool, ◌-◌, ◌+◌, ℕ, err, ok, Result, drop, take, length,
  if◌then◌else◌, leb,
}

-- One end of a session: the chunks that the peer has sent and this end has not taken, the chunks that
-- it has sent, and whether the peer is gone.
pub record SimSession : Type 0 where
  pub rx : List (List ℕ)
  pub tx : List (List ℕ)
  pub closed : Bool

-- An I/O error of kind BrokenPipe.
pub data SessionError : Type 0 where
  broken_pipe : SessionError

unfoldable pub send_bytes : List ℕ → SimSession → Result SessionError (Unit {0}) × SimSession
send_bytes b s =
    if s.closed then (err broken_pipe, s) else (ok tt, record s { tx = s.tx ++ (b ∷ []) })

abbrev pub taken_chunk : List (List ℕ) → SimSession → Option (List ℕ) × SimSession
taken_chunk [] s = (none, s)
taken_chunk (b ∷ rest) s = (some b, record s { rx = rest })

-- The next chunk, or none when the peer is gone and all its chunks were taken.
unfoldable pub recv_bytes : SimSession → Option (List ℕ) × SimSession
recv_bytes s = taken_chunk s.rx s

pub record SessionStream : Type 0 where
  pub session : SimSession
  pub pending : List ℕ
  pub pos : ℕ

abbrev pub new_stream : SimSession → SessionStream
new_stream s = record { session = s; pending = []; pos = 0 }

-- As much of the chunk as the buffer has room for.
abbrev pub put_slice : ℕ → SessionStream → List ℕ × SessionStream
put_slice room s =
    let n = min (length s.pending - s.pos) room in
    (take n (drop s.pos s.pending), record s { pos = s.pos + n })

abbrev pub with_chunk : ℕ → SessionStream → Option (List ℕ) × SimSession → List ℕ × SessionStream
with_chunk room s (none, session) = ([], record s { session = session })
with_chunk room s (some b, session) =
    put_slice room (record { session = session; pending = b; pos = 0 })

-- A read into a buffer with room for so many bytes; no byte is the end of the stream.
unfoldable pub poll_read : ℕ → SessionStream → List ℕ × SessionStream
unfolding recv_bytes
poll_read room s =
    if leb (length s.pending) s.pos
    then with_chunk room s (recv_bytes s.session)
    else put_slice room s

abbrev after_send :
    ℕ
    → SessionStream
    → Result SessionError (Unit {0}) × SimSession
    → Result SessionError ℕ × SessionStream
after_send n s (err e, session) = (err e, record s { session = session })
after_send n s (ok tt, session) = (ok n, record s { session = session })

unfoldable pub poll_write : List ℕ → SessionStream → Result SessionError ℕ × SessionStream
unfolding send_bytes
poll_write b s = after_send (length b) s (send_bytes b s.session)
