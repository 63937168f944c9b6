-- ===== src/Exchange/Calling.antt =====
-- A call, from `call_tool` of the client through `handle_conn` of the daemon and back.
use ohmcp.Client.Receive.{
  route_resolved, after_route, gives_up, close, take_mail, is_response, kind, resolve_shm,
  take_response, route_kind, route, recv_loop, recv_response,
}
use ohmcp.Client.Request.{
  remember_result, unwrap_result, is_error, finish_request, unwrap_response, ref_frame, Moment,
  request_frame, after_try, try_uplink, submit, request_with_cache, request_with_id, await_response,
  submitted,
}
use ohmcp.Client.State.{ClientError, after, OhmcpClient, ClientOutside, Incoming, arrived}
use ohmcp.Pipeline.{unwrap, PayloadPipeline, wrap}
use ohmcp.Base.{
  Result, ==_iff, ◌==◌, ◌∙◌, ap, sym, arith, ◌++◌, ℕ, ◌≡◌, refl, Bool, true, false, if◌then◌else◌,
  List, [], ◌∷◌, Option, none, some, ok,
}
use ohmcp.Client.Kept.{resolve_shm_writer}
use ohmcp.Exchange.Downlink.{Delivered}
use ohmcp.Core.Frame.{cacheable_bit, Frame, encode}
use ohmcp.Server.Calls.{set_flags}
use ohmcp.Base.Words.{add_u64}
use ohmcp.Base.Maps.{add, discard, lookup}
use ohmcp.Base.Equality.{nat_eq, text_equality}
use ohmcp.Core.MsgType.{MsgType}
use ohmcp.Cache.ResultCache.{CacheKey}
use ohmcp.Transport.Shm.{ShmRing}
use ohmcp.Transport.Stream.{send, flush, queue, write_buf, written}
use ohmcp.Exchange.Listing.{is_empty-encode}

module _ {Value : Type 0} (out : ClientOutside Value) (m : Moment) (t : MsgType) (payload : List ℕ)
    (key : Option CacheKey) where
  -- The client after it sent the request.
  abbrev sent_with : Option (ℕ × ShmRing) → OhmcpClient → OhmcpClient
  sent_with o c =
      let (f, c1) = after_try out o t c.next_id payload c in
      record c {
        next_id = add_u64 c.next_id 1;
        pipeline = c1.pipeline;
        shm_up = c1.shm_up;
        pending = c.next_id ∷ [];
        receivers = add c.next_id c.receivers;
        writer = (send written f c.writer).1;
      }

  submit_with :
      (o : Option (ℕ × ShmRing)) (c : OhmcpClient)
      → m.write ≡ written
      → c.pending ≡ []
      → let (f, c1) =
          after_try out o t c.next_id payload (record c { next_id = add_u64 c.next_id 1 }) in
        submit out m c.next_id f c1 ≡ (ok tt, sent_with o c)
  unfolding submit send flush queue write_buf add
  submit_with none c w alone =
      rw
        (
          alone,
          w,
          is_empty-encode out (wrap out.lz4 out.aead t c.next_id payload c.pipeline).0 c.writer.buf,
        )
        refl
  submit_with (some (off, r)) c w alone =
      rw (alone, w, is_empty-encode out (ref_frame t c.next_id off payload) c.writer.buf) refl

  abbrev pub sent_request : OhmcpClient → OhmcpClient
  sent_request c = sent_with (try_uplink out payload c.shm_up) c

  -- All that it then has written.
  pub sent_request_sent :
      (c : OhmcpClient)
      → (sent_request c).writer.sent
        ≡ c.writer.sent
          ++ encode
              (after_try out (try_uplink out payload c.shm_up) t c.next_id payload c).0
              c.writer.buf
  unfolding send flush queue write_buf
  sent_request_sent c =
      rw
        (is_empty-encode out
          (after_try out (try_uplink out payload c.shm_up) t c.next_id payload c).0 c.writer.buf)
        refl

  -- A request without others on their way is sent, and then waited for.
  pub sends_one :
      (c : OhmcpClient)
      → m.write ≡ written
      → c.pending ≡ []
      → request_with_cache out m t payload key c
        ≡ await_response out m key c.next_id (sent_request c)
  unfolding request_with_cache request_with_id request_frame
  sends_one c w alone =
      ap (λ r. submitted out m r key c.next_id)
        (submit_with (try_uplink out payload c.shm_up) c w alone)

  received :
      (id : ℕ) (g f : Frame) (rest : List Incoming) (c c3 : OhmcpClient)
      → c.mailbox ≡ []
      → c.incoming ≡ arrived f ∷ rest
      → resolve_shm f (record c { incoming = rest }) ≡ (ok g, c3)
      → kind g.header.msg_type ≡ is_response
      → g.header.request_id ≡ id
      → recv_response out m.now id c
        ≡ (ok g, close id (record c3 { pending = discard id c3.pending }))
  unfolding recv_response recv_loop route route_kind take_response lookup
  received id g f rest c c3 none_there first resolves response own =
      let mine : g.header.request_id == id ≡ true = (==_iff g.header.request_id id).1 own in
      let more = recv_loop out m.now id rest in
      let taken : route_kind out m.now (kind g.header.msg_type) id g c3
          ≡ (some g, record c3 { pending = discard id c3.pending }) =
        rw (response, mine) refl in
      ap (gives_up id) (
        ap (λ l. take_mail out m.now id (lookup id l) c) none_there
        ∙ ap (λ l. recv_loop out m.now id l c) first
        ∙ ap (λ r. after_route out m.now (route_resolved out m.now id r) more) resolves
        ∙ ap (λ (r : Option Frame × OhmcpClient). after_route out m.now (ok r.0, r.1) more) taken)

  remember_result_writer :
      (o : Option CacheKey) (g : Frame) (body : List ℕ) (c : OhmcpClient)
      → (remember_result out m o g body c).writer ≡ c.writer
  remember_result_writer none g body c = refl
  remember_result_writer (some k) g body c = ground arith

  opened :
      (g : Frame) (body : List ℕ) (c3 c4 : OhmcpClient)
      → c4.pipeline ≡ c3.pipeline
      → is_error g.header.msg_type ≡ false
      → unwrap_response out m g c3 ≡ (ok body, c3)
      → (c' : OhmcpClient) × (after (unwrap_response out m g c4) (finish_request out m key g)
          ≡ (ok body, c'))
        × (c'.writer ≡ c4.writer)
  unfolding unwrap_response finish_request
  opened g body c3 c4 same fine opens =
      let c5 = (unwrap_response out m g c4).1 in
      let result : (unwrap_response out m g c4).0 ≡ ok body =
        ap (λ p. unwrap_result out m (unwrap out.lz4 out.aead m.now g p).0) same
        ∙ ap (λ (r : Result ClientError (List ℕ) × OhmcpClient). r.0) opens in
      (
        remember_result out m key g body c5,
        rw (result, fine) refl,
        remember_result_writer key g body c5,
      )

  -- A result is waited for, and comes first.
  pub await-Delivered :
      (id : ℕ) (marked : Bool) (f : Frame) (rest : List Incoming) (body : List ℕ)
      (sender : PayloadPipeline) (c : OhmcpClient)
      → c.mailbox ≡ []
      → c.incoming ≡ arrived (set_flags (if marked then cacheable_bit else 0) f) ∷ rest
      → Delivered out m id body sender (record c { incoming = rest }) marked f c.shm
      → (c' : OhmcpClient) × (await_response out m key id c ≡ (ok body, c'))
        × (c'.writer ≡ c.writer)
  unfolding await_response
  await-Delivered id marked f rest body sender c none_there first
        (g, c3, resolves, same_type, same_id, mark, ref, opens) =
      let c4 = close id (record c3 { pending = discard id c3.pending }) in
      let (c', e, same) = opened g body c3 c4 refl (ap is_error same_type) opens in
      (
        c',
        ap
              (λ r.
                after r
                  (λ resp c. after (unwrap_response out m resp c) (finish_request out m key resp)))
              (received id g _ rest c c3 none_there first resolves (ap kind same_type) same_id)
            ∙ e,
        same
            ∙ sym (ap (λ (r : Result ClientError Frame × OhmcpClient). r.1.writer) resolves)
            ∙ resolve_shm_writer (set_flags (if marked then cacheable_bit else 0) f)
                (record c { incoming = rest }),
      )
