-- ===== src/Exchange/WholeCall.antt =====
-- A whole call: `call_tool` of the client, and the daemon that answers it with the result.
use ohmcp.Base.{
  ◌∙◌, sym, subst, ap, ◌++◌, ℕ, ◌≡◌, refl, Bool, true, false, List, [], ◌∷◌, Option, none, some, ok,
}
use ohmcp.Server.Calls.{run_tool, wrap_maybe_shm, set_flags}
use ohmcp.Exchange.Serving.{handle_frame-run_tool, run_tool-Sends, Right, bits_of, result_sent}
use ohmcp.Pipeline.{unwrap, PayloadPipeline}
use ohmcp.Server.Dispatch.{resolve_uplink, handle_frame}
use ohmcp.Exchange.Uplink.{unwrap-request_frame, Drained}
use ohmcp.Exchange.Calling.{sends_one, await-Delivered, sent_request, sent_request_sent}
use ohmcp.Server.Session.{queued, goes_on, Session, Answers, Outside}
use ohmcp.Client.State.{json, or_fail, arrived, Incoming, OhmcpClient, ClientOutside, after}
use ohmcp.Security.Crypto.{SessionCipher}
use ohmcp.Server.Answered.{key_for}
use ohmcp.Server.Tools.{call, is_cacheable}
use ohmcp.Exchange.Downlink.{unwrap_response-wrap_maybe_shm, Delivered}
use ohmcp.Security.Acl.{check}
use ohmcp.Base.Maps.{contains}
use ohmcp.Client.Request.{try_uplink, request_frame, after_try, Moment}
use ohmcp.Transport.Stream.{written, FrameWriter}
use ohmcp.Exchange.Login.{Compatible}
use ohmcp.Client.Methods.{call_key, call_tool, call_payload}
use ohmcp.Exchange.Listing.{Agree-wrap}
use ohmcp.Cache.ResultCache.{CacheKey}
use ohmcp.Core.Message.{CallToolParams, CallToolResult}
use ohmcp.Core.Frame.{Frame, encode}
use ohmcp.Pipeline.RoundTrip.{Agree}
use ohmcp.Base.Bytes.{Text}
use ohmcp.Transport.Shm.{ShmRing}
use ohmcp.Base.Equality.{nat_eq, text_equality}
use ohmcp.Core.MsgType.{MsgType}
use ohmcp.Cache.ResultCache

-- The client has sent, and can still receive.
module _ {Value : Type 0} (cout : ClientOutside Value) (x : Option SessionCipher) where
  Agree-sent :
      (t : MsgType) (id : ℕ) (payload : List ℕ) (c : OhmcpClient) (o : Option (ℕ × ShmRing))
      → Agree x c.pipeline.cipher
      → Agree x (after_try cout o t id payload c).1.pipeline.cipher
  Agree-sent t id payload c none agree = Agree-wrap cout x t id payload c.pipeline agree
  Agree-sent t id payload c (some (off, r)) agree = agree

abbrev pub call_params : {Value : Type 0} → Text → Value → CallToolParams Value
call_params name arguments = record { name = name; arguments = arguments; meta = none }

module _ {Value : Type 0} (cout : ClientOutside Value) (name : Text) (arguments : Value) where
  abbrev pub call_bytes : List ℕ
  call_bytes = call_payload cout name (cout.serde.to_vec arguments)

  abbrev called_key : Option CacheKey
  called_key = call_key cout name (cout.serde.to_vec arguments)

  -- The frame in which the client asks, and its uplink after that.
  abbrev pub call_frame : OhmcpClient → Frame
  call_frame c = (request_frame cout MsgType.call_tool c.next_id call_bytes c).0

  abbrev pub uplink_after : OhmcpClient → Option ShmRing
  uplink_after c = (request_frame cout MsgType.call_tool c.next_id call_bytes c).1.shm_up

module _ {Value : Type 0} (out : Outside Value) (name : Text) (result : CallToolResult) where
  abbrev marked_in : Session Value → Bool
  marked_in s = is_cacheable name s.shared.registry

  -- The frame in which the daemon answers, and the downlink after that.
  abbrev pub result_frame : ℕ → Session Value → Frame
  result_frame id s = set_flags (bits_of (marked_in s)) (result_sent out id result s).0

  abbrev pub downlink_after : ℕ → Session Value → Option ShmRing
  downlink_after id s = (result_sent out id result s).2

module _ {Value : Type 0} (out : Outside Value) (cout : ClientOutside Value) (a : Answers)
    (m : Moment) (name : Text) (arguments : Value) (result : CallToolResult) where
  client_side :
      (c : OhmcpClient) (s : Session Value) (rest : List Incoming)
      → Compatible out cout
      → cout.serde.read_call_result (out.serde.write_call_result result) ≡ some result
      → m.write ≡ written
      → c.pending ≡ []
      → c.mailbox ≡ []
      → c.incoming ≡ arrived (result_frame out name result c.next_id s) ∷ rest
      → c.shm ≡ downlink_after out name result c.next_id s
      → Drained s.shm
      → Agree s.pipeline.cipher c.pipeline.cipher
      → (c' : OhmcpClient) × (call_tool cout m name arguments c ≡ (ok result, c'))
        × (c'.writer.sent ≡ c.writer.sent ++ encode (call_frame cout name arguments c) c.writer.buf)
  unfolding call_tool request_frame
  client_side c s rest k reads w alone none_there first below drained agree =
      let id = c.next_id in
      let body = out.serde.write_call_result result in
      let d =
        sent_request cout m MsgType.call_tool (call_bytes cout name arguments)
          (called_key cout name arguments) c in
      let receives =
        Agree-sent cout s.pipeline.cipher MsgType.call_tool id (call_bytes cout name arguments) c
          (try_uplink cout (call_bytes cout name arguments) c.shm_up) agree in
      let same : wrap_maybe_shm cout.lz4 cout.aead s.pipeline s.shm id body
          ≡ wrap_maybe_shm out.lz4 out.aead s.pipeline s.shm id body =
        λ i. wrap_maybe_shm (k.same_lz4 i) (k.same_aead i) s.pipeline s.shm id body in
      let there =
        subst
          (λ (w : Frame × PayloadPipeline × Option ShmRing).
            Delivered cout m id body s.pipeline (record d { incoming = rest })
              (marked_in out name result s) w.0 w.2)
          same
          (unwrap_response-wrap_maybe_shm cout m id body s.pipeline (record d { incoming = rest })
            (marked_in out name result s) s.shm drained receives) in
      let (c', got, same_writer) =
        await-Delivered cout m MsgType.call_tool (call_bytes cout name arguments)
          (called_key cout name arguments) id (marked_in out name result s)
          (result_sent out id result s).0 rest body s.pipeline d none_there first
          (subst
            (Delivered cout m id body s.pipeline (record d { incoming = rest })
              (marked_in out name result s) (result_sent out id result s).0)
            (sym below) there) in
      (
        c',
        ap (λ r. after r (λ b. or_fail json (cout.serde.read_call_result b)))
              (sends_one cout m MsgType.call_tool (call_bytes cout name arguments)
                  (called_key cout name arguments) c w alone
                ∙ got)
            ∙ ap (λ o. or_fail json o c') reads,
        ap (λ (w : FrameWriter). w.sent) same_writer
            ∙ sent_request_sent cout m MsgType.call_tool (call_bytes cout name arguments)
                (called_key cout name arguments) c,
      )

  daemon_side :
      (c : OhmcpClient) (s : Session Value)
      → Compatible out cout
      → out.serde.read_call (call_bytes cout name arguments) ≡ some (call_params name arguments)
      → Drained c.shm_up
      → s.shm_up ≡ uplink_after cout name arguments c
      → Agree c.pipeline.cipher s.pipeline.cipher
      → s.authenticated ≡ true
      → contains c.next_id s.cancelled ≡ false
      → check s.agent_id name s.shared.acl ≡ ok tt
      → call name arguments s.shared.registry ≡ some result
      → contains (key_for out (call_params name arguments)) s.delivered ≡ false
      → Right out result
          (ResultCache.get a.now (key_for out (call_params name arguments)) s.shared.cache).0
      → (u : Session Value) × (handle_frame out a (call_frame cout name arguments c) s
          ≡ goes_on (queued (result_frame out name result c.next_id s) u))
        × (u.shm ≡ downlink_after out name result c.next_id s)
  daemon_side c s k reads drained above agree known kept allowed ran new right =
      let id = c.next_id in
      let (g, ring, resolves, t, i, opens) =
        unwrap-request_frame cout a.now MsgType.call_tool id (call_bytes cout name arguments) c
          s.pipeline drained agree in
      let resolves' = ap (resolve_uplink (call_frame cout name arguments c)) above ∙ resolves in
      let opens' = sym (λ j. unwrap (k.same_lz4 j) (k.same_aead j) a.now g s.pipeline) ∙ opens in
      let (u, sends, below, moved) =
        run_tool-Sends out a id (call_params name arguments) result (record s { shm_up = ring })
          refl allowed ran new right in
      (
        u,
        handle_frame-run_tool out a (call_frame cout name arguments c) g
              (call_bytes cout name arguments) (call_params name arguments) s ring known
              (ap (λ n. contains n s.cancelled) i ∙ kept) resolves' t opens' reads
            ∙ ap
                (λ n.
                  goes_on
                    (run_tool out a n (call_params name arguments) (record s { shm_up = ring })))
                i
            ∙ ap goes_on sends,
        below,
      )

  -- On an open session, when no other request waits, the client's `call_tool` of a tool that is there
  -- and that it may call sends one frame and returns what the tool returns, for the frame that the
  -- daemon queues when it handles the client's frame; whether the bytes go in frames, encrypted or not, or through the
  -- shared memory, and whether the tool runs or its result is in the daemon's cache. If the client's
  -- write succeeds, each end takes the other's key and has read all in its ring, the daemon reads
  -- these parameters and the client this result as they were written, the call was not cancelled,
  -- what the cache has for it is its result, and this session has not got that result before.
  pub call_tool-handle_frame :
      (c : OhmcpClient) (s : Session Value) (rest : List Incoming)
      → Compatible out cout
      → out.serde.read_call (call_bytes cout name arguments) ≡ some (call_params name arguments)
      → cout.serde.read_call_result (out.serde.write_call_result result) ≡ some result
      → m.write ≡ written
      → c.pending ≡ []
      → c.mailbox ≡ []
      → c.incoming ≡ arrived (result_frame out name result c.next_id s) ∷ rest
      → c.shm ≡ downlink_after out name result c.next_id s
      → Drained s.shm
      → Drained c.shm_up
      → s.shm_up ≡ uplink_after cout name arguments c
      → Agree s.pipeline.cipher c.pipeline.cipher
      → Agree c.pipeline.cipher s.pipeline.cipher
      → s.authenticated ≡ true
      → contains c.next_id s.cancelled ≡ false
      → check s.agent_id name s.shared.acl ≡ ok tt
      → call name arguments s.shared.registry ≡ some result
      → contains (key_for out (call_params name arguments)) s.delivered ≡ false
      → Right out result
          (ResultCache.get a.now (key_for out (call_params name arguments)) s.shared.cache).0
      → (c' : OhmcpClient) × (u : Session Value) × (call_tool cout m name arguments c
          ≡ (ok result, c'))
        × (c'.writer.sent ≡ c.writer.sent ++ encode (call_frame cout name arguments c) c.writer.buf)
        × (handle_frame out a (call_frame cout name arguments c) s
            ≡ goes_on (queued (result_frame out name result c.next_id s) u))
        × (u.shm ≡ downlink_after out name result c.next_id s)
  call_tool-handle_frame c s rest k asked reads w alone none_there first below drained empty above
        receives sends known kept allowed ran new right =
      let (c', got, wrote) =
        client_side c s rest k reads w alone none_there first below drained receives in
      let (u, handled, after_it) =
        daemon_side c s k asked empty above sends known kept allowed ran new right in
      (c', u, got, wrote, handled, after_it)
