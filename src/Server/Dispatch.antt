-- ===== src/Server/Dispatch.antt =====
-- crates/ohmcpd/src/server.rs: one turn of the loop of `handle_conn`, and `reject_busy`.
-- What the loop waits for is an event; the order of the events is any. A receiver of resource events
-- that lags behind sends nothing, so that is no event here.
use Prim.Native.Nat.{bit_and}
use ohmcp.Base.{
  ℕ, Bool, true, false, not, ◌-◌, List, Result, ok, err, Option, none, some, if◌then◌else◌,
}
use ohmcp.Base.Bytes.{ascii}
use ohmcp.Base.Maps.{contains}
use ohmcp.Base.Equality.{text_equality}
use ohmcp.Base.Integers.{minus}
use ohmcp.Core.Error.{CoreError}
use ohmcp.Core.MsgType.{
  MsgType, auth, shm_setup, initialize, list_tools, list_resources, read_resource, list_prompts,
  get_prompt, ping, subscribe_resource, unsubscribe_resource, cancel, call_tool, resource_updated,
  resource_list_changed, error,
}
use ohmcp.Core.Frame.{Frame, FrameFlags, shm_ref, shm_ref_bit}
use ohmcp.Transport.Shm.{ShmRing, decode_shm_ref, read_release}
use ohmcp.Transport.Stream.{Write, FrameWriter, flush, send, new_writer}
use ohmcp.Server.Tools.{ResourceEvent, updated, list_changed}
use ohmcp.Server.Session.{
  Outside, Session, Serde, Answers, Next, goes_on, returned, failed, reply, reply_error,
}
use ohmcp.Server.Login.{handle_auth}
use ohmcp.Server.Handlers.{
  handle_shm_setup, handle_initialize, handle_list_tools, handle_list_resources,
  handle_read_resource, handle_list_prompts, handle_get_prompt, handle_ping, handle_subscription,
  handle_cancel,
}
use ohmcp.Server.Calls.{handle_call}
use ohmcp.Core.Frame

-- `f.header.flags.0 &= !FrameFlags::SHM_REF`
abbrev pub clear_shm_ref : FrameFlags → FrameFlags
clear_shm_ref flags = flags - bit_and flags shm_ref_bit

abbrev pub resolved : Frame → ℕ → List ℕ → Frame
resolved f len body = record {
  header = record f.header { flags = clear_shm_ref f.header.flags; payload_len = len };
  payload = body;
}

abbrev pub after_read : Frame → ℕ → Option (List ℕ × ShmRing) → Option (Frame × Option ShmRing)
after_read f len none = none
after_read f len (some (body, ring)) = some (resolved f len body, some ring)

abbrev pub read_record : Frame → Option (ℕ × ℕ) → ShmRing → Option (Frame × Option ShmRing)
read_record f none ring = none
read_record f (some (offset, len)) ring = after_read f len (read_release offset len ring)

abbrev pub read_uplink : Frame → Option ShmRing → Option (Frame × Option ShmRing)
read_uplink f none = none
read_uplink f (some ring) = read_record f (decode_shm_ref f.payload) ring

-- A reference to the uplink is replaced by the record; `none` is an error.
unfoldable pub resolve_uplink : Frame → Option ShmRing → Option (Frame × Option ShmRing)
resolve_uplink f shm_up = if shm_ref f.header.flags then read_uplink f shm_up else some (f, shm_up)

abbrev pub is_auth : MsgType → Bool
is_auth auth = true
is_auth _ = false

module _ {Value : Type 0} (out : Outside Value) (a : Answers) where
  -- The requests of a session that is open; a type that is none is only logged.
  unfoldable pub handle_request : MsgType → Frame → Session Value → Next Value
  handle_request shm_setup f s = handle_shm_setup out a f.header.request_id s
  handle_request initialize f s = goes_on (handle_initialize out a f.header.request_id s)
  handle_request list_tools f s = goes_on (handle_list_tools out a f.header.request_id s)
  handle_request list_resources f s = goes_on (handle_list_resources out a f.header.request_id s)
  handle_request read_resource f s = handle_read_resource out a f s
  handle_request list_prompts f s = goes_on (handle_list_prompts out a f.header.request_id s)
  handle_request get_prompt f s = handle_get_prompt out a f s
  handle_request ping f s = goes_on (handle_ping out a f.header.request_id s)
  handle_request subscribe_resource f s = handle_subscription out a true f s
  handle_request unsubscribe_resource f s = handle_subscription out a false f s
  handle_request cancel f s = handle_cancel out a f s
  handle_request call_tool f s = handle_call out a f s
  handle_request _ f s = goes_on s

  unfoldable pub dispatch : Frame → Session Value → Next Value
  dispatch f s =
      if is_auth f.header.msg_type
      then handle_auth out a f.header.request_id f.payload s
      else if not s.authenticated
      then goes_on (reply_error out 32001 (ascii "authentication required") f.header.request_id s)
      else handle_request f.header.msg_type f s

  abbrev pub dispatch_resolved : Option (Frame × Option ShmRing) → Session Value → Next Value
  dispatch_resolved none s = failed s
  dispatch_resolved (some (f, ring)) s = dispatch f (record s { shm_up = ring })

  unfoldable pub handle_frame : Frame → Session Value → Next Value
  unfolding dispatch
  handle_frame f s = dispatch_resolved (resolve_uplink f s.shm_up) s

-- What a turn of the loop begins with: a frame; the writer's turn, when no whole frame is in the
-- buffer; an event of the registry; the end of the stream; an error of the reader; the shutdown.
pub data Event : Type 0 where
  frame : Answers → Frame → Event
  idle : Write → Event
  resource : Write → ResourceEvent → Event
  end_of_stream : Write → Event
  read_error : CoreError → Event
  shutdown : Write → Event

module _ {Value : Type 0} (out : Outside Value) where
  abbrev pub after_flush :
      Result CoreError (Unit {0}) → (Session Value → Next Value) → Session Value → Next Value
  after_flush (ok tt) go s = go s
  after_flush (err e) go s = failed s

  -- `flush().await?`, then the rest.
  abbrev pub flushed : Write → (Session Value → Next Value) → Session Value → Next Value
  flushed w go s =
      let (result, writer) = flush w s.writer in
      after_flush result go (record s { writer = writer })

  unfoldable pub notify : Write → ResourceEvent → Session Value → Next Value
  notify w (updated uri) s =
      if contains uri s.subscribed
      then flushed w goes_on
          (reply out resource_updated 0 (out.serde.write_updated (record { uri = uri })) s)
      else goes_on s
  notify w list_changed s =
      if s.authenticated
      then flushed w goes_on (reply out resource_list_changed 0 (ascii "{}") s)
      else goes_on s

  -- The last flush, whose outcome is not looked at.
  abbrev pub close : Write → Session Value → Next Value
  close w s = returned (record s { writer = (flush w s.writer).1 })

  unfoldable pub step : Event → Session Value → Next Value
  unfolding notify
  step (frame a f) s = handle_frame out a f s
  step (idle w) s = flushed w goes_on s
  step (resource w e) s = notify w e s
  step (end_of_stream w) s = close w s
  step (read_error e) s = failed s
  step (shutdown w) s = close w s

-- A connection beyond the limit gets one error, and is closed.
unfoldable pub reject_busy : {Value : Type 0} → Serde Value → Write → FrameWriter
reject_busy serde w =
    (send w
      (Frame.new error 0 (
        serde.write_error (record {
          code = minus 32005;
          message = ascii "server busy: connection limit reached";
          details = none;
        })))
      new_writer).1
