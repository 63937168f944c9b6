-- ===== src/Exchange/Listing.antt =====
-- A whole exchange: the client's `list_tools`, and the daemon's answer to it.
use ohmcp.Core.MsgType.{MsgType, list_tools_result}
use ohmcp.Base.{
  ◌++◌, ◌∙◌, is_empty, ap, List, Option, false, true, refl, ◌≡◌, ℕ, ==_iff, ◌==◌, [], ◌∷◌, none,
  some, ok,
}
use ohmcp.Exchange.Frames.{wrap_header}
use ohmcp.Server.Session.{queued, goes_on, reply, Session, Answers, Outside}
use ohmcp.Server.Dispatch.{resolve_uplink, handle_request, dispatch, handle_frame}
use ohmcp.Server.Handlers.{handle_list_tools}
use ohmcp.Pipeline.RoundTrip.{unwrap-wrap, Agree, plain, keyed}
use ohmcp.Exchange.Login.{Compatible}
use ohmcp.Core.Frame.{encode, FrameFlags, shm_ref, Frame}
use ohmcp.Base.Words.{add_u64}
use ohmcp.Base.Maps.{add, discard, lookup}
use ohmcp.Pipeline.{unwrap, PayloadPipeline, seal_payload, sealed_frame, wrap}
use ohmcp.Client.Request.{
  Moment, finish_request, unwrap_response, await_response, try_uplink, request, request_with_cache,
  request_with_id, request_frame, submit,
}
use ohmcp.Transport.Stream.{write_buf, queue, flush, send, written}
use ohmcp.Security.Crypto.{encrypt, SessionCipher}
use ohmcp.Client.Methods.{list_tools}
use ohmcp.Client.Receive.{
  kind, take_response, route_kind, resolve_shm, route, recv_loop, recv_response, is_response, close,
}
use ohmcp.Client.State.{OhmcpClient, Incoming, ClientOutside, arrived}
use ohmcp.Transport.Shm.{ShmRing}
use ohmcp.Base.Equality.{nat_eq}

module _ {Value : Type 0} (out : ClientOutside Value) where
  -- An empty payload goes into a frame.
  no_uplink : (ring : Option ShmRing) → try_uplink out [] ring ≡ none
  no_uplink none = refl
  no_uplink (some r) = refl

  -- A response that is waited for is the first thing that comes.
  recv_response_first :
      (now id : ℕ) (g : Frame) (rest : List Incoming) (d : OhmcpClient)
      → d.mailbox ≡ []
      → d.incoming ≡ arrived g ∷ rest
      → shm_ref g.header.flags ≡ false
      → kind g.header.msg_type ≡ is_response
      → g.header.request_id ≡ id
      → recv_response out now id d
        ≡ (ok g, close id (record d { incoming = rest; pending = discard id d.pending }))
  unfolding recv_response recv_loop route resolve_shm route_kind take_response lookup
  recv_response_first now id g rest d none_there first bare answer own =
      let mine : g.header.request_id == id ≡ true = (==_iff g.header.request_id id).1 own in
      rw (none_there, first, bare, answer, mine) refl

  -- The end that receives still can, after it has sent.
  Agree-seal :
      (x c : Option SessionCipher) (flags : FrameFlags) (t : MsgType) (id : ℕ) (body : List ℕ)
      → Agree x c
      → Agree x (seal_payload out.lz4 out.aead c flags t id body).2
  unfolding seal_payload encrypt
  Agree-seal none none flags t id body plain = plain
  Agree-seal none (some b) flags t id body x = elim x [ ]
  Agree-seal (some a) none flags t id body x = elim x [ ]
  Agree-seal (some a) (some b) flags t id body (keyed same l) = keyed same l

  pub Agree-wrap :
      (x : Option SessionCipher) (t : MsgType) (id : ℕ) (payload : List ℕ) (p : PayloadPipeline)
      → Agree x p.cipher
      → Agree x (wrap out.lz4 out.aead t id payload p).1.cipher
  unfolding wrap sealed_frame
  Agree-wrap x t id payload p agree = Agree-seal x p.cipher _ t id _ agree

  -- An answer that is a result and unwraps to this body.
  await_result :
      (m : Moment) (id : ℕ) (g : Frame) (rest : List Incoming) (body : List ℕ) (d : OhmcpClient)
      → d.mailbox ≡ []
      → d.incoming ≡ arrived g ∷ rest
      → shm_ref g.header.flags ≡ false
      → g.header.msg_type ≡ list_tools_result
      → g.header.request_id ≡ id
      → unwrap out.lz4 out.aead m.now g d.pipeline ≡ (ok body, d.pipeline)
      → await_response out m none id d
        ≡ (ok body, close id (record d { incoming = rest; pending = discard id d.pending }))
  unfolding await_response unwrap_response finish_request
  await_result m id g rest body d none_there first bare result own opens =
      rw
        (
          recv_response_first m.now id g rest d none_there first bare (ap kind result) own,
          opens,
          result,
        )
        refl

  -- A client on which no other request waits, before the stream gives these.
  abbrev pub alone : OhmcpClient → List Incoming → OhmcpClient
  alone c incoming = record c { pending = []; mailbox = []; incoming = incoming }

  pub is_empty-encode : (f : Frame) (buf : List ℕ) → is_empty (encode f buf) ≡ false
  unfolding encode
  is_empty-encode f [] = refl
  is_empty-encode f (b ∷ buf) = refl

  sends_alone :
      (m : Moment) (t : MsgType) (incoming : List Incoming) (c : OhmcpClient)
      → m.write ≡ written
      → let (f, p) = wrap out.lz4 out.aead t c.next_id [] c.pipeline in
        request out m t [] (alone c incoming)
        ≡ await_response out m none c.next_id (record (alone c incoming) {
          next_id = add_u64 c.next_id 1;
          pipeline = p;
          pending = c.next_id ∷ [];
          receivers = add c.next_id c.receivers;
          writer = (send written f c.writer).1;
        })
  unfolding request request_with_cache request_with_id request_frame submit send flush queue
      write_buf add
  sends_alone m t incoming c w =
      rw
        (
          no_uplink c.shm_up,
          w,
          is_empty-encode (wrap out.lz4 out.aead t c.next_id [] c.pipeline).0 c.writer.buf,
        )
        refl

module _ {Value : Type 0} (out : Outside Value) (cout : ClientOutside Value) (a : Answers) where
  -- The frame in which the client asks, and the one in which the daemon answers.
  abbrev pub asks : OhmcpClient → Frame
  asks c = (wrap cout.lz4 cout.aead MsgType.list_tools c.next_id [] c.pipeline).0

  abbrev pub answers : OhmcpClient → Session Value → Frame
  answers c s =
      (wrap out.lz4 out.aead list_tools_result c.next_id
        (out.serde.write_tools (record { tools = s.shared.registry.tools })) s.pipeline).0

  -- The daemon's session after it.
  abbrev pub after_answer : OhmcpClient → Session Value → Session Value
  after_answer c s = record s {
    pipeline =
        (wrap out.lz4 out.aead list_tools_result c.next_id
          (out.serde.write_tools (record { tools = s.shared.registry.tools })) s.pipeline).1;
  }

  handle_frame-asks :
      (c : OhmcpClient) (s : Session Value)
      → s.authenticated ≡ true
      → handle_frame out a (asks c) s ≡ goes_on (queued (answers c s) (after_answer c s))
  unfolding handle_frame dispatch handle_request handle_list_tools reply resolve_uplink
  handle_frame-asks c s known =
      let (bare, mark, ref, same_type, same_id) =
        wrap_header cout.lz4 cout.aead MsgType.list_tools c.next_id [] c.pipeline in
      rw (bare, same_type, known, same_id) refl

  answer_opens :
      (m : Moment) (c : OhmcpClient) (s : Session Value) (p : PayloadPipeline)
      → Compatible out cout
      → Agree s.pipeline.cipher p.cipher
      → unwrap cout.lz4 cout.aead m.now (answers c s) p
        ≡ (ok (out.serde.write_tools (record { tools = s.shared.registry.tools })), p)
  answer_opens m c s p k agree =
      (λ i. unwrap (k.same_lz4 i) (k.same_aead i) m.now (answers c s) p)
      ∙ unwrap-wrap out.lz4 out.aead m.now s.pipeline p list_tools_result c.next_id _ agree

  -- On a session that is open, when no other request waits, the client's `list_tools` sends the frame
  -- that asks, the daemon queues an answer to that frame, and the client that gets this answer returns
  -- the tools that are registered; if the write succeeds, the client takes the daemon's key, and it
  -- reads this result as the daemon wrote it.
  pub list_tools-handle_frame :
      (m : Moment) (c : OhmcpClient) (s : Session Value) (rest : List Incoming)
      → Compatible out cout
      → cout.serde.read_tools (out.serde.write_tools (record { tools = s.shared.registry.tools }))
        ≡ some (record { tools = s.shared.registry.tools })
      → m.write ≡ written
      → s.authenticated ≡ true
      → Agree s.pipeline.cipher c.pipeline.cipher
      → (c' : OhmcpClient) × (list_tools cout m (alone cout c (arrived (answers c s) ∷ rest))
          ≡ (ok (record { tools = s.shared.registry.tools }), c'))
        × (c'.writer.sent ≡ c.writer.sent ++ encode (asks c) c.writer.buf)
        × (c'.incoming ≡ rest)
        × (handle_frame out a (asks c) s ≡ goes_on (queued (answers c s) (after_answer c s)))
  unfolding list_tools send flush queue write_buf
  list_tools-handle_frame m c s rest k reads w known agree =
      let g = answers c s in
      let (bare, mark, ref, same_type, same_id) =
        wrap_header out.lz4 out.aead list_tools_result c.next_id
          (out.serde.write_tools (record { tools = s.shared.registry.tools })) s.pipeline in
      let p = (wrap cout.lz4 cout.aead MsgType.list_tools c.next_id [] c.pipeline).1 in
      let d : OhmcpClient = record (alone cout c (arrived g ∷ rest)) {
        next_id = add_u64 c.next_id 1;
        pipeline = p;
        pending = c.next_id ∷ [];
        receivers = add c.next_id c.receivers;
        writer = (send written (asks c) c.writer).1;
      } in
      let receives =
        Agree-wrap cout s.pipeline.cipher MsgType.list_tools c.next_id [] c.pipeline agree in
      let got =
        sends_alone cout m MsgType.list_tools (arrived g ∷ rest) c w
        ∙ await_result cout m c.next_id g rest
            (out.serde.write_tools (record { tools = s.shared.registry.tools })) d refl refl bare
            same_type same_id (answer_opens m c s p k receives) in
      (
        close c.next_id (record d { incoming = rest; pending = discard c.next_id d.pending }),
        rw (got, reads) refl,
        rw (is_empty-encode cout (asks c) c.writer.buf) refl,
        refl,
        handle_frame-asks c s known,
      )
