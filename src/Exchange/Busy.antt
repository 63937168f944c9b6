-- ===== src/Exchange/Busy.antt =====
-- A client that connects to a daemon at its limit.
use ohmcp.Client.State.{closed, new_client, ClientOutside, arrived, ended}
use ohmcp.Base.Bytes.{Text, ascii}
use ohmcp.Client.Connect.{Greeting, connect_inner}
use ohmcp.Core.Frame.{encode, Frame}
use ohmcp.Client.Receive.{recv_loop, recv_response, route, resolve_shm, route_kind, take_response}
use ohmcp.Client.Request.{
  await_response, submit, request_frame, request_with_id, request_with_cache, request,
}
use ohmcp.Transport.Stream.{write_buf, flush, queue, send, written}
use ohmcp.Core.MsgType.{error}
use ohmcp.Server.Dispatch.{reject_busy}
use ohmcp.Server.Session.{Serde}
use ohmcp.Base.{◌∷◌, [], none, false, refl, ◌≡◌, err}
use ohmcp.Base.Integers.{minus}
use ohmcp.Base.Maps.{add, lookup}
use ohmcp.Base.Equality.{nat_eq}
use ohmcp.Core.Frame

-- What `reject_busy` sends.
abbrev pub busy_frame : {Value : Type 0} → Serde Value → Frame
busy_frame serde = Frame.new error 0 (
    serde.write_error (record {
      code = minus 32005;
      message = ascii "server busy: connection limit reached";
      details = none;
    }))

-- The error of a rejection has no request's id, so a client without a token that gets it passes it
-- over, and what its host learns is that the connection was closed.
pub connect_inner-reject_busy :
    {Value : Type 0}
    → (serde : Serde Value) (out : ClientOutside Value) (g : Greeting) (agent : Text)
    → g.init.write ≡ written
    → ((reject_busy serde written).sent ≡ encode (busy_frame serde) [])
      × ((connect_inner out g agent none false
            (new_client (arrived (busy_frame serde) ∷ ended ∷ []))).0
          ≡ err closed)
unfolding reject_busy send queue flush write_buf connect_inner request request_with_cache
    request_with_id request_frame submit await_response recv_response recv_loop route resolve_shm
    route_kind take_response encode Frame.new add lookup
connect_inner-reject_busy serde out g agent w = (refl, rw w refl)
