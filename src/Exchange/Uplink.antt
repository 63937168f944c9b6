-- ===== src/Exchange/Uplink.antt =====
-- A request, from the client's `request_with_id` to the daemon's handlers.
use ohmcp.Base.{
  inr, inl, Bool-cases, ℕ, ◌+◌, ◌≡◌, refl, arith, List, [], Option, none, some, ok, length, leb,
}
use ohmcp.Core.MsgType.{MsgType}
use ohmcp.Core.Frame.{Frame, shm_ref}
use ohmcp.Transport.Shm.{ShmRing, try_write, shm_threshold}
use ohmcp.Transport.Shm.Fifo.{Holds}
use ohmcp.Transport.Shm.Handover.{Counts, handover}
use ohmcp.Pipeline.{PayloadPipeline, wrap, unwrap}
use ohmcp.Pipeline.RoundTrip.{Agree, unwrap-wrap}
use ohmcp.Client.State.{OhmcpClient, ClientOutside}
use ohmcp.Client.Request.{request_frame, try_uplink, after_try, ref_frame}
use ohmcp.Server.Dispatch.{resolve_uplink, resolved}
use ohmcp.Exchange.Frames.{wrap_header, unwrap_bare}
use ohmcp.Core.Frame

-- There is no ring, or every record in it has been read.
abbrev pub Drained : Option ShmRing → Type 0
Drained none = Unit {0}
Drained (some r) = Holds r [] × Counts r

module _ {Value : Type 0} (out : ClientOutside Value) (now : ℕ) (t : MsgType) (id : ℕ)
    (payload : List ℕ) (c : OhmcpClient) (p : PayloadPipeline) where
  -- The frame, and the ring that both ends share, come to the payload.
  abbrev pub Received : Frame → Option ShmRing → Type 0
  Received f ring =
      (g : Frame) × (ring' : Option ShmRing) × (resolve_uplink f ring ≡ some (g, ring'))
      × (g.header.msg_type ≡ t)
      × (g.header.request_id ≡ id)
      × (unwrap out.lz4 out.aead now g p ≡ (ok payload, p))

  Received-frame :
      Agree c.pipeline.cipher p.cipher → Received (after_try out none t id payload c).0 c.shm_up
  unfolding resolve_uplink
  Received-frame agree =
      let f = (wrap out.lz4 out.aead t id payload c.pipeline).0 in
      let (plain, flag, ref, same_type, same_id) =
        wrap_header out.lz4 out.aead t id payload c.pipeline in
      (
        f,
        c.shm_up,
        rw plain refl,
        same_type,
        same_id,
        unwrap-wrap out.lz4 out.aead now c.pipeline p t id payload agree,
      )

  Received-record :
      (r : ShmRing) (off : ℕ) (r' : ShmRing)
      → Holds r []
      → Counts r
      → try_write payload r ≡ some (off, r')
      → Received (ref_frame t id off payload) (some r')
  unfolding resolve_uplink Frame.new
  Received-record r off r' drained counts wrote =
      let (ref, read, empty) = handover r payload off r' drained counts wrote in
      let f = ref_frame t id off payload in
      let g = resolved f (length payload) payload in
      (
        g,
        some (record r' { tail = off + length payload }),
        rw (ref, read) refl,
        refl,
        refl,
        unwrap_bare out.lz4 out.aead now g p refl refl refl,
      )

  Received-after :
      (ring : Option ShmRing) (o : Option (ℕ × ShmRing))
      → c.shm_up ≡ ring
      → Drained ring
      → Agree c.pipeline.cipher p.cipher
      → try_uplink out payload ring ≡ o
      → Received (after_try out o t id payload c).0 (after_try out o t id payload c).1.shm_up
  Received-after ring none e d agree h = Received-frame agree
  Received-after none (some (off, r')) e d agree h = ground arith
  Received-after (some r) (some (off, r')) e d agree h =
      elim (Bool-cases (leb shm_threshold (length payload))) [
        | inl y ↦ Received-record r off r' d.0 d.1 (ground arith)
        | inr n ↦ ground arith
      ]

  -- What the client sends, in a frame or through the uplink, the daemon takes as the same bytes
  -- under the same type and id, if the ends agree on the key and the uplink has no record before it.
  pub unwrap-request_frame :
      Drained c.shm_up
      → Agree c.pipeline.cipher p.cipher
      → Received (request_frame out t id payload c).0 (request_frame out t id payload c).1.shm_up
  unfolding request_frame
  unwrap-request_frame d agree = Received-after c.shm_up _ refl d agree refl
