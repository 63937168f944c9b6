-- ===== src/Client/Request.antt =====
-- crates/ohmcp-client/src/lib.rs: `request_with_id`, from the frame that goes out to the body that
-- comes back.
use Prim.Native.Nat.{bit_or}
use ohmcp.Base.Words.{add_u64}
use ohmcp.Base.{
  ℕ, Bool, true, false, not, ◌&&◌, ◌%◌, ◌^◌, List, Option, none, some, Result, ok, err,
  if◌then◌else◌, ltb, leb, length,
}
use ohmcp.Base.Bytes.{Text}
use ohmcp.Base.Equality.{nat_eq}
use ohmcp.Base.Maps.{add}
use ohmcp.Core.Error.{CoreError}
use ohmcp.Core.Frame.{Frame, FrameFlags, shm_ref_bit, cacheable, cache_ref}
use ohmcp.Core.MsgType.{MsgType, error}
use ohmcp.Cache.ResultCache.{CacheKey}
use ohmcp.Transport.Shm.{ShmRing, shm_threshold, try_write, encode_shm_ref}
use ohmcp.Transport.Stream.{FrameWriter, Write, queue, flush, send}
use ohmcp.Pipeline.{wrap, unwrap, remember}
use ohmcp.Client.State.{
  OhmcpClient, ClientError, core, unwrapping, server, Action, ◌>>=◌, ClientOutside,
}
use ohmcp.Client.Receive.{recv_response, close}
use ohmcp.Core.Frame

-- What the outside answers while one request is made: the clock, and the stream.
pub record Moment : Type 0 where
  pub now : ℕ
  pub write : Write

abbrev pub ref_frame : MsgType → ℕ → ℕ → List ℕ → Frame
ref_frame t id offset payload =
    let f = Frame.new t id (encode_shm_ref offset (length payload % 2 ^ 32)) in
    record f { header = record f.header { flags = bit_or f.header.flags shm_ref_bit } }

abbrev pub is_error : MsgType → Bool
is_error error = true
is_error _ = false

-- `map_err` of what the writer says.
abbrev pub write_result : Result CoreError (Unit {0}) → Result ClientError (Unit {0})
write_result (ok tt) = ok tt
write_result (err e) = err (core e)

module _ {Value : Type 0} (out : ClientOutside Value) where
  abbrev pub wrapped_frame : MsgType → ℕ → List ℕ → OhmcpClient → Frame × OhmcpClient
  wrapped_frame t id payload c =
      let (f, p) = wrap out.lz4 out.aead t id payload c.pipeline in (f, record c { pipeline = p })

  abbrev pub after_try :
      Option (ℕ × ShmRing) → MsgType → ℕ → List ℕ → OhmcpClient → Frame × OhmcpClient
  after_try none t id payload c = wrapped_frame t id payload c
  after_try (some (offset, ring)) t id payload c =
      (ref_frame t id offset payload, record c { shm_up = some ring })

  abbrev pub try_uplink : List ℕ → Option ShmRing → Option (ℕ × ShmRing)
  try_uplink payload none = none
  try_uplink payload (some ring) =
      if leb shm_threshold (length payload) then try_write payload ring else none

  -- A large payload goes through the uplink, if there is one with room; any other into the frame.
  unfoldable pub request_frame : MsgType → ℕ → List ℕ → OhmcpClient → Frame × OhmcpClient
  request_frame t id payload c = after_try (try_uplink payload c.shm_up) t id payload c

  module _ (m : Moment) where
    abbrev pub sent_frame : Result CoreError (Unit {0}) × FrameWriter → Action (Unit {0})
    sent_frame (r, w) c = (write_result r, record c { writer = w })

    -- With another request on its way the frame is queued, and the next flush takes all that is
    -- queued; otherwise it is sent at once.
    unfoldable pub submit : ℕ → Frame → Action (Unit {0})
    submit id f c =
        let c' = record c { pending = add id c.pending; receivers = add id c.receivers } in
        if ltb 1 (length c'.pending)
        then sent_frame (flush m.write (queue f c'.writer)) c'
        else sent_frame (send m.write f c'.writer) c'

    abbrev pub unwrap_result : Result Text (List ℕ) → Result ClientError (List ℕ)
    unwrap_result (ok body) = ok body
    unwrap_result (err e) = err (unwrapping e)

    unfoldable pub unwrap_response : Frame → Action (List ℕ)
    unwrap_response f c =
        let (r, p) = unwrap out.lz4 out.aead m.now f c.pipeline in
        (unwrap_result r, record c { pipeline = p })

    -- Only a whole result that the server marks as one that may be stored goes into the cache.
    abbrev pub remember_result : Option CacheKey → Frame → List ℕ → OhmcpClient → OhmcpClient
    remember_result none f body c = c
    remember_result (some key) f body c =
        if cacheable f.header.flags && not (cache_ref f.header.flags)
        then record c { pipeline = remember out.walk m.now key body c.pipeline }
        else c

    unfoldable pub finish_request : Option CacheKey → Frame → List ℕ → Action (List ℕ)
    finish_request key f body c =
        if is_error f.header.msg_type
        then (err (server body), c)
        else (ok body, remember_result key f body c)

    -- After the frame went out.
    unfoldable pub await_response : Option CacheKey → ℕ → Action (List ℕ)
    unfolding finish_request unwrap_response
    await_response key id = do
      resp ← recv_response out m.now id
      body ← unwrap_response resp
      finish_request key resp body

    -- Without the frame on its way nothing is waited for.
    abbrev pub submitted :
        Result ClientError (Unit {0}) × OhmcpClient
        → Option CacheKey
        → ℕ
        → Result ClientError (List ℕ) × OhmcpClient
    submitted (ok tt, c) key id = await_response key id c
    submitted (err e, c) key id = (err e, close id c)

    unfoldable pub request_with_id : MsgType → List ℕ → Option CacheKey → ℕ → Action (List ℕ)
    unfolding request_frame submit await_response
    request_with_id t payload key id c =
        let (f, c') = request_frame t id payload c in submitted (submit id f c') key id

    unfoldable pub request_with_cache : MsgType → List ℕ → Option CacheKey → Action (List ℕ)
    unfolding request_with_id
    request_with_cache t payload key c =
        request_with_id t payload key c.next_id (record c { next_id = add_u64 c.next_id 1 })

    unfoldable pub request : MsgType → List ℕ → Action (List ℕ)
    unfolding request_with_cache
    request t payload = request_with_cache t payload none
