-- ===== src/Bench/Same.antt =====
-- crates/ohmcp-bench/src/baseline.rs beside crates/ohmcp-client/src/lib.rs: the same registry, called
-- over either protocol.
use ohmcp.Base.{
  ◌++◌, ◌∷◌, [], List, false, ◌<◌, ◌^◌, ok, ◌∙◌, ap, ◌≡◌, refl, true, none, some, arith,
}
use ohmcp.Exchange.Codec.{
  compatible, Codec, call_tree, exact, exact_members, depth_limit, with_codec, host_of,
}
use ohmcp.Exchange.WholeCall.{
  call_tool-handle_frame, call_frame, uplink_after, downlink_after, result_frame, call_bytes,
  call_params,
}
use ohmcp.Server.Session.{queued, goes_on, Session, Answers, Outside}
use ohmcp.Server.Dispatch.{handle_frame}
use ohmcp.Base.Bytes.{ascii, Text}
use ohmcp.Bench.Answers.{
  call_tool-written, asked, answered, call_tool-outcome, handle-asked, outcome,
}
use ohmcp.Bench.Baseline.{handle, returned, BaselineClient}
use ohmcp.Exchange.Serving.{Right}
use ohmcp.Server.Answered.{key_for}
use ohmcp.Security.Acl.{check}
use ohmcp.Base.Maps.{contains}
use ohmcp.Pipeline.RoundTrip.{Agree}
use ohmcp.Exchange.Uplink.{Drained}
use ohmcp.Client.State.{arrived, Incoming, OhmcpClient, ClientOutside}
use ohmcp.Client.Request.{Moment}
use ohmcp.Base.Equality.{nat_eq, text_equality}
use ohmcp.Core.Json.{Json, once, ◌>>=◌, to_value}
use ohmcp.Core.Message.{CallToolResult}
use ohmcp.Core.Frame.{encode}
use ohmcp.Core.Message.ReadBack.{call_tool_result_lem, call_tool_result_value_lem}
use ohmcp.Exchange.Exact.{exact-suc, call_tool_result-exact}
use ohmcp.Transport.Stream.{written}
use ohmcp.Server.Tools.{call}
use ohmcp.Client.Methods.{call_tool}
use ohmcp.Core.Message.Read
use ohmcp.Core.Message.Write
use ohmcp.Cache.ResultCache
use ohmcp.Bench.Baseline

module _ (codec : Codec) (out : Outside Json) (a : Answers) (m : Moment) (name : Text)
    (arguments : Json) (h : exact 125 arguments ≡ true) where
  abbrev pub daemon : Outside Json
  daemon = with_codec codec out

  abbrev pub host : ClientOutside Json
  host = host_of codec out

  call_tree-exact : exact depth_limit (call_tree name arguments) ≡ true
  unfolding exact exact_members
  call_tree-exact = ground (arith, exact-suc 125 arguments h)

  read_call_tree :
      Read.call_tool_params (call_tree name arguments)
      ≡ some (record { name = name; arguments = arguments; meta = none })
  unfolding once
  read_call_tree = refl

  read_call-call_bytes :
      daemon.serde.read_call (call_bytes host name arguments)
      ≡ some (record { name = name; arguments = arguments; meta = none })
  read_call-call_bytes =
      ap daemon.serde.read_call (codec.prints_object name arguments)
      ∙ ap (λ o. o >>= Read.call_tool_params)
          (codec.reads_back (call_tree name arguments) call_tree-exact)
      ∙ read_call_tree

  read_call_result_lem :
      (r : CallToolResult) → host.serde.read_call_result (daemon.serde.write_call_result r) ≡ some r
  read_call_result_lem r =
      ap (λ o. o >>= Read.call_tool_result)
        (codec.reads_back (Write.call_tool_result r) (call_tool_result-exact 124 r))
      ∙ call_tool_result_lem r

  -- The host that calls a tool gets the same from either protocol: the baseline's client returns the
  -- value of the result that ohmcp's client returns; each client writes the request, a line or a
  -- frame, and nothing else; and each server, with the same registry, answers that line or that frame
  -- so. The arguments are a value with its maps in order, and their depth and the sizes of the numbers
  -- are those that a text keeps; of ohmcp: the session is open, no other request waits, the agent may
  -- call the tool, the client's write succeeds, each end takes the other's key and has read all in
  -- its ring, the call was not cancelled, what the cache has for it is its result, and this session
  -- has not got that result before.
  pub call_tool-call_tool :
      (result : CallToolResult) (b : BaselineClient) (c : OhmcpClient) (s : Session Json)
      (rest : List Incoming)
      → to_value arguments ≡ arguments
      → b.next_id < 2 ^ 64
      → b.incoming ≡ codec.print (answered s.shared.registry name arguments b.next_id) ∷ []
      → m.write ≡ written
      → c.pending ≡ []
      → c.mailbox ≡ []
      → c.incoming ≡ arrived (result_frame daemon name result c.next_id s) ∷ rest
      → c.shm ≡ downlink_after daemon name result c.next_id s
      → Drained s.shm
      → Drained c.shm_up
      → s.shm_up ≡ uplink_after host name arguments c
      → Agree s.pipeline.cipher c.pipeline.cipher
      → Agree c.pipeline.cipher s.pipeline.cipher
      → s.authenticated ≡ true
      → contains c.next_id s.cancelled ≡ false
      → check s.agent_id name s.shared.acl ≡ ok tt
      → call name arguments s.shared.registry ≡ some result
      → contains (key_for daemon (call_params name arguments)) s.delivered ≡ false
      → Right daemon result
          (ResultCache.get a.now (key_for daemon (call_params name arguments)) s.shared.cache).0
      → (v : Json) × (c' : OhmcpClient) × (u : Session Json) × ((Baseline.call_tool codec true name
            arguments b).0
          ≡ returned v)
        × ((Baseline.call_tool codec true name arguments b).1.written
            ≡ b.written
              ++ (codec.print (asked s.shared.registry name arguments b.next_id) ++ ascii "\n"))
        × (call_tool host m name arguments c ≡ (ok result, c'))
        × (c'.writer.sent ≡ c.writer.sent ++ encode (call_frame host name arguments c) c.writer.buf)
        × (Read.call_tool_result v ≡ some result)
        × (handle codec s.shared.registry
              (codec.print (asked s.shared.registry name arguments b.next_id) ∷ [])
            ≡ codec.print (answered s.shared.registry name arguments b.next_id) ++ ascii "\n")
        × (handle_frame daemon a (call_frame host name arguments c) s
            ≡ goes_on (queued (result_frame daemon name result c.next_id s) u))
  call_tool-call_tool result b c s rest sorted small line w alone none_there first below drained
        empty above receives sends known kept allowed ran new right =
      let (c', u, got, wrote, handled, after_it) =
        call_tool-handle_frame daemon host a m name arguments result c s rest (compatible codec out)
          read_call-call_bytes (read_call_result_lem result) w alone none_there first below drained
          empty above receives sends known kept allowed ran new right in
      (
        to_value (Write.call_tool_result result),
        c',
        u,
        call_tool-outcome codec s.shared.registry name arguments b small h line ∙ ap outcome ran,
        call_tool-written codec s.shared.registry name arguments b,
        got,
        wrote,
        call_tool_result_value_lem result,
        handle-asked codec s.shared.registry name arguments b.next_id small h sorted,
        handled,
      )
