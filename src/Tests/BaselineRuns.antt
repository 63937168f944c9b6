-- ===== src/Tests/BaselineRuns.antt =====
-- A call over either protocol.
use ohmcp.Bench.Baseline.{
  request_tree, respond, BaselineClient, handle, connect, returned, new_client,
}
use ohmcp.Server.Session.{queued, goes_on, shared_at_start, session_at_start, Session, Outside}
use ohmcp.Exchange.WholeCall.{call_frame, result_frame}
use ohmcp.Fixtures.{stored_order, toy, run_lengths}
use ohmcp.Server.Dispatch.{handle_frame}
use ohmcp.Fixtures.Daemon.{toy_primitives, well}
use ohmcp.Exchange.Codec.{host_of, daemon_serde, with_codec}
use ohmcp.Client.State.{arrived, OhmcpClient}
use ohmcp.Pipeline.{enable_encryption, PayloadPipeline}
use ohmcp.Core.Frame.{Frame, encode}
use ohmcp.Base.{inl, ◌≡◌, refl, arith, ◌++◌, true, some, none, ok, [], ◌∷◌}
use ohmcp.Base.Bytes.{ascii}
use ohmcp.Bench.Same.{call_tool-call_tool}
use ohmcp.Bench.Answers.{asked, answered}
use ohmcp.Core.Json.{Json, string, json_object}
use ohmcp.Fixtures.Wire.{toy_codec}
use ohmcp.Server.Tools.{ToolRegistry, register, text_result, call, is_cacheable}
use ohmcp.Client.Methods.{call_tool}
use ohmcp.Transport.Stream.{written}
use ohmcp.Pipeline.RoundTrip.{keyed}
use ohmcp.Core.Message.Read
use ohmcp.Server.Tools
use ohmcp.Pipeline
use ohmcp.Bench.Baseline
use ohmcp.Client.State

abbrev json_outside : Outside Json
json_outside = record {
  serde = daemon_serde toy_codec;
  lz4 = run_lengths;
  aead = toy;
  prim = toy_primitives;
  walk = stored_order;
  digest = λ b. b;
}

abbrev registry : ToolRegistry Json
registry =
    register (ascii "echo") (ascii "says it") (json_object []) true (λ v. text_result (ascii "5"))
      Tools.new

abbrev arguments : Json
arguments = json_object ((ascii "text", string (ascii "hello")) ∷ [])

abbrev baseline : BaselineClient
baseline = record (Baseline.new_client []) {
  incoming = toy_codec.print (answered registry (ascii "echo") arguments 1) ∷ [];
}

abbrev sealed : PayloadPipeline
sealed = enable_encryption (1 ∷ 2 ∷ 3 ∷ 4 ∷ []) (9 ∷ []) Pipeline.new

abbrev open_daemon : Session Json
open_daemon = record (session_at_start (shared_at_start registry none)) { pipeline = sealed }

abbrev ends : Outside Json
ends = with_codec toy_codec json_outside

abbrev answer : Frame
answer = result_frame ends (ascii "echo") (text_result (ascii "5")) 1 open_daemon

abbrev client : OhmcpClient
client = record (State.new_client (arrived answer ∷ [])) { pipeline = sealed }

call_tool-call_tool_example :
    (v : Json) × (c' : OhmcpClient) × (u : Session Json) × ((Baseline.call_tool toy_codec true
        (ascii "echo")
        arguments
        baseline).0
      ≡ returned v)
    × ((Baseline.call_tool toy_codec true (ascii "echo") arguments baseline).1.written
        ≡ [] ++ (toy_codec.print (asked registry (ascii "echo") arguments 1) ++ ascii "\n"))
    × (call_tool
          (host_of toy_codec json_outside)
          (record { now = 5; write = written })
          (ascii "echo")
          arguments
          client
        ≡ (ok (text_result (ascii "5")), c'))
    × (c'.writer.sent
        ≡ []
          ++ encode
              (call_frame (host_of toy_codec json_outside) (ascii "echo") arguments client)
              [])
    × (Read.call_tool_result v ≡ some (text_result (ascii "5")))
    × (handle toy_codec registry (toy_codec.print (asked registry (ascii "echo") arguments 1) ∷ [])
        ≡ toy_codec.print (answered registry (ascii "echo") arguments 1) ++ ascii "\n")
    × (handle_frame ends
          (well 5)
          (call_frame (host_of toy_codec json_outside) (ascii "echo") arguments client)
          open_daemon
        ≡ goes_on (queued answer u))
unfolding ohmcp.Core.Json.to_value ohmcp.Exchange.Codec.exact ohmcp.Server.Calls.wrap_maybe_shm
    ohmcp.Client.Request.request_frame ohmcp.Base.Maps.contains ohmcp.Security.Acl.check
    ohmcp.Security.Acl.grant_all ohmcp.Base.Maps.add call ohmcp.Base.Maps.lookup register
    ohmcp.Base.Maps.insert ohmcp.Cache.ResultCache.get ohmcp.Cache.ResultCache.get_entry
    ohmcp.Cache.ResultCache.new
call_tool-call_tool_example =
    call_tool-call_tool toy_codec json_outside (well 5) (record { now = 5; write = written })
      (ascii "echo") arguments refl (text_result (ascii "5")) baseline client open_daemon [] refl
      (omega arith) refl refl refl refl refl refl tt tt refl (keyed refl refl) (keyed refl refl)
      refl refl refl refl refl (inl refl)

-- The two clients in a row: the handshake of the baseline, and its call.
connects :
    (connect toy_codec true (
      toy_codec.print (respond registry (request_tree 1 (ascii "initialize") (json_object [])))
      ∷ [])).1.next_id
    ≡ 2
unfolding connect ohmcp.Core.Json.to_value ohmcp.Base.Maps.lookup ohmcp.Fixtures.Wire.parse
    ohmcp.Fixtures.Wire.print respond ohmcp.Base.Maps.contains ohmcp.Base.Maps.add
    ohmcp.Base.Maps.insert
connects = refl
