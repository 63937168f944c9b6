-- ===== src/Client/Receive.antt =====
-- crates/ohmcp-client/src/lib.rs: `recv_response` and `resolve_shm`. The holder of the reader's lock
-- reads until its own response comes, and hands on the others.
use Prim.Native.Nat.{bit_and}
use ohmcp.Base.{
  ℕ, ◌-◌, ◌++◌, List, [], ◌∷◌, Option, none, some, Result, ok, err, if◌then◌else◌, ◌==◌,
}
use ohmcp.Base.Bytes.{Text}
use ohmcp.Base.Equality.{nat_eq}
use ohmcp.Base.Maps.{lookup, insert, remove, contains, discard}
use ohmcp.Core.Frame.{Frame, shm_ref, shm_ref_bit}
use ohmcp.Core.Message.{ProgressParams, ResourceUpdatedParams}
use ohmcp.Core.MsgType.{MsgType, progress, resource_list_changed, resource_updated}
use ohmcp.Transport.Shm.{ShmRing, decode_shm_ref, read_release}
use ohmcp.Pipeline.{unwrap}
use ohmcp.Client.State.{
  Incoming, arrived, ended, broken, late, Notice, progressed, list_changed, OhmcpClient,
  ClientError, core, closed, waiting, no_channel, bad_ref, invalid_ref, unwrapping, Action, after,
  ClientOutside,
}
use ohmcp.Client.State

-- The record in place of its reference, and the flag cleared.
abbrev pub resolved : Frame → ℕ → List ℕ → Frame
resolved f len body = record {
  header = record f.header {
    flags = f.header.flags - bit_and f.header.flags shm_ref_bit;
    payload_len = len;
  };
  payload = body;
}

abbrev pub after_release :
    Frame → ℕ → ℕ → OhmcpClient → Option (List ℕ × ShmRing) → Result ClientError Frame × OhmcpClient
after_release f offset len c none = (err (invalid_ref offset len), c)
after_release f offset len c (some (body, ring)) =
    (ok (resolved f len body), record c { shm = some ring })

abbrev pub release_ref :
    Frame → ShmRing → OhmcpClient → Option (ℕ × ℕ) → Result ClientError Frame × OhmcpClient
release_ref f ring c none = (err bad_ref, c)
release_ref f ring c (some (offset, len)) =
    after_release f offset len c (read_release offset len ring)

abbrev pub resolve_in :
    Frame → OhmcpClient → Option ShmRing → Result ClientError Frame × OhmcpClient
resolve_in f c none = (err no_channel, c)
resolve_in f c (some ring) = release_ref f ring c (decode_shm_ref f.payload)

unfoldable pub resolve_shm : Frame → Action Frame
resolve_shm f c = if shm_ref f.header.flags then resolve_in f c c.shm else (ok f, c)

-- A request drops its receiver, with what is in its channel.
abbrev pub close : ℕ → OhmcpClient → OhmcpClient
close id c = record c { receivers = discard id c.receivers; mailbox = remove id c.mailbox }

abbrev pub gives_up :
    {A : Type 0} → ℕ → Result ClientError A × OhmcpClient → Result ClientError A × OhmcpClient
gives_up id (r, c) = (r, close id c)

-- The notifications, which are no responses.
pub data Kind : Type 0 where
  is_progress : Kind
  is_list_changed : Kind
  is_updated : Kind
  is_response : Kind

abbrev pub kind : MsgType → Kind
kind progress = is_progress
kind resource_list_changed = is_list_changed
kind resource_updated = is_updated
kind _ = is_response

abbrev pub noticed : Notice → OhmcpClient → OhmcpClient
noticed n c = record c { notices = c.notices ++ (n ∷ []) }

module _ {Value : Type 0} (out : ClientOutside Value) (now : ℕ) where
  abbrev pub call_progress : Option ProgressParams → OhmcpClient → OhmcpClient
  call_progress none c = c
  call_progress (some p) c =
      if contains p.request_id c.progress then noticed (progressed p) c else c

  abbrev pub call_updated : Option ResourceUpdatedParams → OhmcpClient → OhmcpClient
  call_updated none c = c
  call_updated (some p) c = if c.on_updated then noticed (State.resource_updated p.uri) c else c

  abbrev pub read_body : {A : Type 0} → (List ℕ → Option A) → Result Text (List ℕ) → Option A
  read_body read (ok body) = read body
  read_body read (err e) = none

  -- What cannot be unwrapped or read is no call.
  abbrev pub on_body :
      {A : Type 0}
      → (List ℕ → Option A)
      → (Option A → OhmcpClient → OhmcpClient)
      → Frame
      → OhmcpClient
      → OhmcpClient
  on_body read call f c =
      let (body, p) = unwrap out.lz4 out.aead now f c.pipeline in
      call (read_body read body) (record c { pipeline = p })

  -- A response for another request goes to its sender, if there is one; it is lost if the request has
  -- given up.
  abbrev pub hand_on : Frame → OhmcpClient → OhmcpClient
  hand_on f c =
      if contains f.header.request_id c.pending
      then record c {
        pending = discard f.header.request_id c.pending;
        mailbox =
            if contains f.header.request_id c.receivers
            then insert f.header.request_id f c.mailbox
            else c.mailbox;
      }
      else c

  -- A frame that has no reference any more: the response that is waited for, or none.
  unfoldable pub take_response : ℕ → Frame → OhmcpClient → Option Frame × OhmcpClient
  take_response id f c =
      if f.header.request_id == id
      then (some f, record c { pending = discard id c.pending })
      else (none, hand_on f c)

  unfoldable pub route_kind : Kind → ℕ → Frame → OhmcpClient → Option Frame × OhmcpClient
  unfolding take_response
  route_kind is_progress id f c = (none, on_body out.serde.read_progress call_progress f c)
  route_kind is_list_changed id f c =
      (none, if c.on_list_changed then noticed list_changed c else c)
  route_kind is_updated id f c = (none, on_body out.serde.read_updated call_updated f c)
  route_kind is_response id f c = take_response id f c

  abbrev pub route_resolved :
      ℕ → Result ClientError Frame × OhmcpClient → Result ClientError (Option Frame) × OhmcpClient
  route_resolved id (err e, c) = (err e, c)
  route_resolved id (ok f, c) =
      let (mine, c') = route_kind (kind f.header.msg_type) id f c in (ok mine, c')

  -- One round of the loop, for a frame that was read.
  unfoldable pub route : ℕ → Frame → OhmcpClient → Result ClientError (Option Frame) × OhmcpClient
  unfolding resolve_shm route_kind
  route id f c = route_resolved id (resolve_shm f c)

  abbrev pub after_route :
      Result ClientError (Option Frame) × OhmcpClient
      → Action Frame
      → Result ClientError Frame × OhmcpClient
  after_route (err e, c) more = (err e, c)
  after_route (ok (some f), c) more = (ok f, c)
  after_route (ok none, c) more = more c

  unfoldable pub recv_loop : ℕ → List Incoming → Action Frame
  recv_loop id [] c = (err waiting, record c { incoming = [] })
  recv_loop id (late ∷ rest) c = (err waiting, record c { incoming = rest })
  recv_loop id (ended ∷ rest) c = (err closed, record c { incoming = rest })
  recv_loop id (broken e ∷ rest) c = (err (core e), record c { incoming = rest })
  recv_loop id (arrived f ∷ rest) c =
      after_route (route id f (record c { incoming = rest })) (recv_loop id rest)

  abbrev pub take_mail : ℕ → Option Frame → Action Frame
  take_mail id none c = recv_loop id c.incoming c
  take_mail id (some f) c = (ok f, c)

  -- The response to a request: from its channel, if another holder of the lock has read it.
  unfoldable pub recv_response : ℕ → Action Frame
  recv_response id c = gives_up id (take_mail id (lookup id c.mailbox) c)
