-- ===== src/Exchange/Downlink.antt =====
-- A result, from `wrap_maybe_shm` of the daemon to `recv_response` of the client.
use ohmcp.Base.{
  ℕ, Bool, true, false, ◌+◌, ◌≡◌, refl, ◌∙◌, arith, List, [], Option, none, some, ok, if◌then◌else◌,
  length, leb, inl, inr, Bool-cases,
}
use ohmcp.Core.MsgType.{call_tool_result}
use ohmcp.Core.Frame.{Frame, shm_ref, cacheable, cache_ref, cacheable_bit}
use ohmcp.Transport.Shm.{ShmRing, try_write, shm_threshold}
use ohmcp.Transport.Shm.Fifo.{Holds}
use ohmcp.Transport.Shm.Handover.{Counts, handover}
use ohmcp.Pipeline.{PayloadPipeline, wrap}
use ohmcp.Pipeline.RoundTrip.{Agree, unwrap-wrap}
use ohmcp.Client.State.{OhmcpClient, ClientOutside}
use ohmcp.Client.Receive.{resolve_shm, resolved}
use ohmcp.Client.Request.{Moment, unwrap_response}
use ohmcp.Server.Calls.{wrap_maybe_shm, after_write, write_large, set_flags, shm_frame}
use ohmcp.Exchange.Frames.{wrap_header, unwrap_bare, unwrap_marked}
use ohmcp.Exchange.Uplink.{Drained}
use ohmcp.Core.Frame

module _ {Value : Type 0} (out : ClientOutside Value) (m : Moment) (id : ℕ) (payload : List ℕ)
    (sender : PayloadPipeline) (c : OhmcpClient) where
  -- The client, whose downlink is the ring after the daemon wrote, comes to the payload.
  abbrev pub Delivered : Bool → Frame → Option ShmRing → Type 0
  Delivered marked f ring =
      (g : Frame) × (c' : OhmcpClient) × (resolve_shm
          (set_flags (if marked then cacheable_bit else 0) f) (record c { shm = ring })
        ≡ (ok g, c'))
      × (g.header.msg_type ≡ call_tool_result)
      × (g.header.request_id ≡ id)
      × (cacheable g.header.flags ≡ marked)
      × (cache_ref g.header.flags ≡ false)
      × (unwrap_response out m g c' ≡ (ok payload, c'))

  Delivered-frame :
      (marked : Bool) (ring : Option ShmRing)
      → Agree sender.cipher c.pipeline.cipher
      → Delivered marked (wrap out.lz4 out.aead call_tool_result id payload sender).0 ring
  unfolding resolve_shm unwrap_response
  Delivered-frame marked ring agree =
      let f = (wrap out.lz4 out.aead call_tool_result id payload sender).0 in
      let (plain, mark, ref, same) =
        unwrap_marked out.lz4 out.aead m.now marked call_tool_result id payload sender c.pipeline in
      let (q, w, e, same_type, same_id) =
        wrap_header out.lz4 out.aead call_tool_result id payload sender in
      (
        set_flags (if marked then cacheable_bit else 0) f,
        record c { shm = ring },
        rw plain refl,
        same_type,
        same_id,
        mark,
        ref,
        rw
            (same
              ∙ unwrap-wrap out.lz4 out.aead m.now sender c.pipeline call_tool_result id payload
                  agree)
            refl,
      )

  Delivered-record :
      (marked : Bool) (r : ShmRing) (off : ℕ) (r' : ShmRing)
      → Holds r []
      → Counts r
      → try_write payload r ≡ some (off, r')
      → Delivered marked (shm_frame id off payload) (some r')
  unfolding resolve_shm Frame.new unwrap_response
  Delivered-record true r off r' drained counts wrote =
      let (ref, read, empty) = handover r payload off r' drained counts wrote in
      let g =
        resolved (set_flags cacheable_bit (shm_frame id off payload)) (length payload) payload in
      let c' = record c { shm = some (record r' { tail = off + length payload }) } in
      (
        g,
        c',
        rw (ref, read) refl,
        refl,
        refl,
        refl,
        refl,
        rw (unwrap_bare out.lz4 out.aead m.now g c.pipeline refl refl refl) refl,
      )
  Delivered-record false r off r' drained counts wrote =
      let (ref, read, empty) = handover r payload off r' drained counts wrote in
      let g = resolved (set_flags 0 (shm_frame id off payload)) (length payload) payload in
      let c' = record c { shm = some (record r' { tail = off + length payload }) } in
      (
        g,
        c',
        rw (ref, read) refl,
        refl,
        refl,
        refl,
        refl,
        rw (unwrap_bare out.lz4 out.aead m.now g c.pipeline refl refl refl) refl,
      )

  Delivered-after :
      (marked : Bool) (ring : Option ShmRing) (o : Option (ℕ × ShmRing))
      → Drained ring
      → Agree sender.cipher c.pipeline.cipher
      → write_large out.lz4 out.aead payload ring ≡ o
      → Delivered marked
          (after_write out.lz4 out.aead o id payload sender ring).0
          (after_write out.lz4 out.aead o id payload sender ring).2
  Delivered-after marked ring none d agree h = Delivered-frame marked ring agree
  Delivered-after marked none (some (off, r')) d agree h = ground arith
  Delivered-after marked (some r) (some (off, r')) d agree h =
      elim (Bool-cases (leb shm_threshold (length payload))) [
        | inl y ↦ Delivered-record marked r off r' d.0 d.1 (ground arith)
        | inr n ↦ ground arith
      ]

  -- What the daemon sends as a result, in a frame or through the downlink, with the mark that it may
  -- be stored or without, the client takes as the same bytes with the same mark, if the ends agree
  -- on the key and the downlink has no record before it.
  pub unwrap_response-wrap_maybe_shm :
      (marked : Bool) (ring : Option ShmRing)
      → Drained ring
      → Agree sender.cipher c.pipeline.cipher
      → Delivered marked
          (wrap_maybe_shm out.lz4 out.aead sender ring id payload).0
          (wrap_maybe_shm out.lz4 out.aead sender ring id payload).2
  unfolding wrap_maybe_shm
  unwrap_response-wrap_maybe_shm marked ring d agree = Delivered-after marked ring _ d agree refl
