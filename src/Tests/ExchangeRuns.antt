-- ===== src/Tests/ExchangeRuns.antt =====
-- The two ends of a session together.
use ohmcp.Exchange.Login.{Compatible, authenticate-handle_auth, login_frame, login_answer}
use ohmcp.Client.State.{ClientOutside, closed, ended, unwrapping, new_client, OhmcpClient, arrived}
use ohmcp.Server.Dispatch.{handle_frame, reject_busy}
use ohmcp.Base.{
  ◌++◌, false, List, subst, sym, err, length, ◌≤◌, arith, ◌∷◌, [], some, none, true, refl, ◌≡◌, ℕ,
  ok,
}
use ohmcp.Exchange.Busy.{connect_inner-reject_busy, busy_frame}
use ohmcp.Client.Connect.{connect_inner, authenticate}
use ohmcp.Cache.ResultCache.{compute, get_entry, get}
use ohmcp.Pipeline.{seal_payload, sealed_frame, wrap, enable_encryption, frame_of, PayloadPipeline}
use ohmcp.Core.Frame.{cacheable_bit, encode, Frame}
use ohmcp.Server.Calls.{send_result, set_flags, execute, run_tool, wrap_maybe_shm}
use ohmcp.Exchange.Again.{call_again_large}
use ohmcp.Client.Methods.{call_key, list_tools}
use ohmcp.Transport.Shm.{shm_threshold, fresh}
use ohmcp.Client.Request.{Moment, finish_request, unwrap_response, request_frame}
use ohmcp.Server.Session.{queued, goes_on, shared_at_start, session_at_start, Session}
use ohmcp.Fixtures.Daemon.{toy_call, well, length-replicate}
use ohmcp.Fixtures.Host.{compatible, daemon_outside, greeting, host_outside}
use ohmcp.Base.Maps.{lookup, insert, add, contains}
use ohmcp.Server.Tools.{call, is_cacheable, text_result, register, ToolRegistry}
use ohmcp.Server.Login.{handle_auth}
use ohmcp.Exchange.Downlink.{unwrap_response-wrap_maybe_shm, Delivered}
use ohmcp.Exchange.Uplink.{unwrap-request_frame, Received, Drained}
use ohmcp.Base.Bytes.{ascii}
use ohmcp.Core.MsgType.{call_tool_result, MsgType}
use ohmcp.Security.Acl.{grant_all, check}
use ohmcp.Exchange.Listing.{after_answer, answers, asks, alone, list_tools-handle_frame}
use ohmcp.Transport.Stream.{written}
use ohmcp.Fixtures.{replicate}
use ohmcp.Pipeline.RoundTrip.{Agree, plain, keyed}
use ohmcp.Base.Equality.{text_equality, nat_eq}
use ohmcp.Server.Tools
use ohmcp.Pipeline

-- Both ends with one key, and rings of which nothing was written.
abbrev sealed : PayloadPipeline
sealed = enable_encryption (1 ∷ 2 ∷ 3 ∷ 4 ∷ []) (9 ∷ []) Pipeline.new

abbrev keyed_client : OhmcpClient
keyed_client = record (new_client []) { pipeline = sealed; shm_up = some (fresh 8) }

sealed-Agree : Agree sealed.cipher sealed.cipher
sealed-Agree = keyed refl refl

fresh-Drained : Drained (some (fresh 8))
fresh-Drained = (
  record { positive = omega arith; small = omega arith; room = omega arith; chain = refl },
  omega arith,
)

unwrap-request_frame_example :
    Received host_outside 5 MsgType.ping 3
      (7 ∷ 8 ∷ [])
      keyed_client
      sealed
      (request_frame host_outside MsgType.ping 3 (7 ∷ 8 ∷ []) keyed_client).0
      (request_frame host_outside MsgType.ping 3 (7 ∷ 8 ∷ []) keyed_client).1.shm_up
unwrap-request_frame_example =
    unwrap-request_frame host_outside 5 MsgType.ping 3 (7 ∷ 8 ∷ []) keyed_client sealed
      fresh-Drained sealed-Agree

unwrap_response-wrap_maybe_shm_example :
    Delivered host_outside greeting.init 3
      (7 ∷ 8 ∷ [])
      sealed
      keyed_client
      true
      (wrap_maybe_shm host_outside.lz4 host_outside.aead sealed (some (fresh 8)) 3 (7 ∷ 8 ∷ [])).0
      (wrap_maybe_shm host_outside.lz4 host_outside.aead sealed (some (fresh 8)) 3 (7 ∷ 8 ∷ [])).2
unwrap_response-wrap_maybe_shm_example =
    unwrap_response-wrap_maybe_shm host_outside greeting.init 3 (7 ∷ 8 ∷ []) sealed keyed_client
      true (some (fresh 8)) fresh-Drained sealed-Agree

abbrev registry : ToolRegistry ℕ
registry = register (ascii "echo") (ascii "says it") 0 true (λ v. text_result (ascii "5")) Tools.new

abbrev with_token : Session ℕ
with_token = session_at_start (shared_at_start registry (some (ascii "token")))

abbrev first_frame : Frame
first_frame =
    login_frame daemon_outside host_outside (well 5) greeting (ascii "agent") (ascii "token")

abbrev first_answer : Frame
first_answer =
    login_answer daemon_outside host_outside (well 5) greeting (ascii "agent") (ascii "token")

authenticate-handle_auth_example :
    (t : Session ℕ) × (c : OhmcpClient) × (authenticate host_outside greeting
        (ascii "agent")
        (ascii "token")
        (new_client (arrived first_answer ∷ []))
      ≡ (ok tt, c))
    × (c.writer.sent ≡ encode first_frame [])
    × (handle_auth daemon_outside (well 5) 0 first_frame.payload with_token ≡ goes_on t)
    × (t.writer.buf ≡ encode first_answer with_token.writer.buf)
    × (t.authenticated ≡ true)
    × Agree t.pipeline.cipher c.pipeline.cipher
    × Agree c.pipeline.cipher t.pipeline.cipher
authenticate-handle_auth_example =
    authenticate-handle_auth daemon_outside host_outside (well 5) greeting (ascii "agent")
      (ascii "token") with_token [] compatible refl refl refl refl

-- The same call twice, without a key.
abbrev open_daemon : Session ℕ
open_daemon = session_at_start (shared_at_start registry none)

abbrev answer_frame : Frame
answer_frame = set_flags cacheable_bit (frame_of 0 call_tool_result 1 (ascii "result"))

-- Before the first call, and after it, the daemon encrypts nothing.
nothing_encrypted :
    Agree (run_tool daemon_outside (well 5) 1 toy_call open_daemon).pipeline.cipher none
unfolding check grant_all contains add is_cacheable call register insert lookup get get_entry
    ohmcp.Cache.ResultCache.new run_tool execute send_result wrap sealed_frame seal_payload compute
nothing_encrypted = plain

abbrev first_moment : Moment
first_moment = record { now = 5; write = written }

abbrev second_moment : Moment
second_moment = record { now = 6; write = written }

-- With arguments of a size that no key is made for.
unfoldable large : List ℕ
large = replicate 20000 5

large_is_large : shm_threshold ≤ length large
unfolding large
large_is_large = subst (λ n. shm_threshold ≤ n) (sym (length-replicate 20000 5)) (omega arith)

call_again_large_example :
    (g : Frame) × (u : Session ℕ) × (run_tool daemon_outside
        (well 6)
        2
        toy_call
        (run_tool daemon_outside (well 5) 1 toy_call open_daemon)
      ≡ queued g u)
    × ((unwrap_response host_outside
          (record { now = 6; write = written })
          g
          (finish_request host_outside
            (record { now = 5; write = written })
            (call_key host_outside (ascii "echo") large)
            answer_frame
            (ascii "result")
            (new_client [])).1).0
        ≡ err (unwrapping (ascii "cache ref miss")))
unfolding check grant_all contains add is_cacheable call register insert lookup get get_entry
    ohmcp.Cache.ResultCache.new compute
call_again_large_example =
    call_again_large daemon_outside host_outside compatible (well 5) (well 6) 1 2 toy_call
      open_daemon (text_result (ascii "5")) refl refl refl refl refl (omega arith)
      (record { now = 5; write = written }) (record { now = 6; write = written }) answer_frame
      (ascii "result") large (new_client []) nothing_encrypted refl large_is_large refl

connect_inner-reject_busy_example :
    ((reject_busy daemon_outside.serde written).sent ≡ encode (busy_frame daemon_outside.serde) [])
    × ((connect_inner host_outside greeting
          (ascii "agent")
          none
          false
          (new_client (arrived (busy_frame daemon_outside.serde) ∷ ended ∷ []))).0
        ≡ err closed)
connect_inner-reject_busy_example =
    connect_inner-reject_busy daemon_outside.serde host_outside greeting (ascii "agent") refl

-- A host that reads the list of these tools.
abbrev listing_host : ClientOutside ℕ
listing_host = record host_outside {
  serde = record host_outside.serde { read_tools = λ b. some (record { tools = registry.tools }) };
}

abbrev listing_compatible : Compatible daemon_outside listing_host
listing_compatible = record {
  same_prim = refl;
  same_lz4 = refl;
  same_aead = refl;
  same_digest = refl;
  auth_read = compatible.auth_read;
  result_read = compatible.result_read;
}

abbrev known_session : Session ℕ
known_session = record open_daemon { authenticated = true; pipeline = sealed }

list_tools-handle_frame_example :
    (c' : OhmcpClient) × (list_tools listing_host greeting.init (
        alone listing_host keyed_client
          (arrived (answers daemon_outside listing_host (well 5) keyed_client known_session) ∷ []))
      ≡ (ok (record { tools = registry.tools }), c'))
    × (c'.writer.sent
        ≡ keyed_client.writer.sent
          ++ encode
              (asks daemon_outside listing_host (well 5) keyed_client)
              keyed_client.writer.buf)
    × (c'.incoming ≡ [])
    × (handle_frame daemon_outside
          (well 5)
          (asks daemon_outside listing_host (well 5) keyed_client)
          known_session
        ≡ goes_on (
            queued
              (answers daemon_outside listing_host (well 5) keyed_client known_session)
              (after_answer daemon_outside listing_host (well 5) keyed_client known_session)))
unfolding register
list_tools-handle_frame_example =
    list_tools-handle_frame daemon_outside listing_host (well 5) greeting.init keyed_client
      known_session [] listing_compatible refl refl refl sealed-Agree
