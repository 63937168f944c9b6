-- ===== src/Client/Kept.antt =====
-- What a request does to another that waits on the same connection.
use ohmcp.Client.Receive.{
  after_route, route, release_ref, after_release, route_resolved, resolve_in, take_mail,
  recv_response, recv_loop, resolve_shm, kind,
}
use ohmcp.Client.State.{
  Incoming, Action, ClientError, OhmcpClient, ClientOutside, arrived, ended, broken, late,
}
use ohmcp.Client.Mail.{Awaits, or_else, or_else-none, or_else_assoc, close-Awaits}
use ohmcp.Client.Routing.{route_kind-Awaits}
use ohmcp.Core.Frame.{Frame, shm_ref}
use ohmcp.Transport.Shm.{ShmRing}
use ohmcp.Base.Maps.{lookup}
use ohmcp.Base.Equality.{nat_eq}
use ohmcp.Base.{
  ℕ, ◌≡◌, ◌≢◌, refl, sym, ap, subst, List, [], ◌∷◌, Option, none, some, Result, ok, err, inl, inr,
  Bool-cases,
}

-- A reference is resolved with the ring alone.
abbrev OnlyRing : OhmcpClient → OhmcpClient → Type 0
OnlyRing c d = (ring : Option ShmRing) × (d ≡ record c { shm = ring })

after_release-OnlyRing :
    (f : Frame) (offset len : ℕ) (c : OhmcpClient) (o : Option (List ℕ × ShmRing))
    → OnlyRing c (after_release f offset len c o).1
after_release-OnlyRing f offset len c none = (c.shm, refl)
after_release-OnlyRing f offset len c (some (body, ring)) = (some ring, refl)

release_ref-OnlyRing :
    (f : Frame) (ring : ShmRing) (c : OhmcpClient) (o : Option (ℕ × ℕ))
    → OnlyRing c (release_ref f ring c o).1
release_ref-OnlyRing f ring c none = (c.shm, refl)
release_ref-OnlyRing f ring c (some (offset, len)) = after_release-OnlyRing f offset len c _

resolve_in-OnlyRing :
    (f : Frame) (c : OhmcpClient) (o : Option ShmRing) → OnlyRing c (resolve_in f c o).1
resolve_in-OnlyRing f c none = (c.shm, refl)
resolve_in-OnlyRing f c (some ring) = release_ref-OnlyRing f ring c _

resolve_shm-OnlyRing : (f : Frame) (c : OhmcpClient) → OnlyRing c (resolve_shm f c).1
unfolding resolve_shm
resolve_shm-OnlyRing f c = elim (Bool-cases (shm_ref f.header.flags)) [
  | inl y ↦ rw y (resolve_in-OnlyRing f c c.shm)
  | inr n ↦ rw n (c.shm, refl)
]

pub resolve_shm_writer : (f : Frame) (c : OhmcpClient) → (resolve_shm f c).1.writer ≡ c.writer
resolve_shm_writer f c = ap (λ (x : OhmcpClient). x.writer) (resolve_shm-OnlyRing f c).1

pub resolve_shm_pipeline : (f : Frame) (c : OhmcpClient) → (resolve_shm f c).1.pipeline ≡ c.pipeline
resolve_shm_pipeline f c = ap (λ (x : OhmcpClient). x.pipeline) (resolve_shm-OnlyRing f c).1

pub resolve_shm_mailbox : (f : Frame) (c : OhmcpClient) → (resolve_shm f c).1.mailbox ≡ c.mailbox
resolve_shm_mailbox f c = ap (λ (x : OhmcpClient). x.mailbox) (resolve_shm-OnlyRing f c).1

ring-Awaits :
    (j : ℕ) (c : OhmcpClient) (ring : Option ShmRing) (o : Option Frame)
    → Awaits j c o
    → Awaits j (record c { shm = ring }) o
ring-Awaits j c ring none w = w
ring-Awaits j c ring (some f) w = w

stream-Awaits :
    (j : ℕ) (c : OhmcpClient) (incoming : List Incoming) (o : Option Frame)
    → Awaits j c o
    → Awaits j (record c { incoming = incoming }) o
stream-Awaits j c incoming none w = w
stream-Awaits j c incoming (some f) w = w

module _ {Value : Type 0} (out : ClientOutside Value) (now : ℕ) (id j : ℕ) (other : j ≢ id) where
  -- The other request has what it had, or has got some frame if it had none.
  abbrev Keeps : Option Frame → OhmcpClient → Type 0
  Keeps o c = (got : Option Frame) × Awaits j c (or_else o got)

  all_stays : (c : OhmcpClient) (o : Option Frame) → Awaits j c o → Keeps o c
  all_stays c o w = (none, subst (Awaits j c) (sym (or_else-none o)) w)

  route_resolved-Keeps :
      (r : Result ClientError Frame × OhmcpClient) (o : Option Frame)
      → Awaits j r.1 o
      → Keeps o (route_resolved out now id r).1
  route_resolved-Keeps (err e, c) o w = all_stays c o w
  route_resolved-Keeps (ok f, c) o w =
      (_, (route_kind-Awaits out now id j other (kind f.header.msg_type) f c o w).0)

  route-Keeps :
      (f : Frame) (c : OhmcpClient) (o : Option Frame)
      → Awaits j c o
      → Keeps o (route out now id f c).1
  unfolding route
  route-Keeps f c o w =
      let (ring, same) = resolve_shm-OnlyRing f c in
      route_resolved-Keeps (resolve_shm f c) o
        (subst (λ (x : OhmcpClient). Awaits j x o) (sym same) (ring-Awaits j c ring o w))

  after_route-Keeps :
      (r : Result ClientError (Option Frame) × OhmcpClient) (more : Action Frame) (o : Option Frame)
      → Keeps o r.1
      → ((c : OhmcpClient) (p : Option Frame) → Awaits j c p → Keeps p (more c).1)
      → Keeps o (after_route out now r more).1
  after_route-Keeps (err e, c) more o h k = h
  after_route-Keeps (ok (some f), c) more o h k = h
  after_route-Keeps (ok none, c) more o (first, w) k =
      let (later, w') = k c (or_else o first) w in
      (or_else first later, subst (Awaits j (more c).1) (or_else_assoc o first later) w')

  recv_loop-Keeps :
      (incoming : List Incoming) (c : OhmcpClient) (o : Option Frame)
      → Awaits j c o
      → Keeps o (recv_loop out now id incoming c).1
  unfolding recv_loop
  recv_loop-Keeps [] c o w = all_stays (record c { incoming = [] }) o (stream-Awaits j c [] o w)
  recv_loop-Keeps (late ∷ rest) c o w =
      all_stays (record c { incoming = rest }) o (stream-Awaits j c rest o w)
  recv_loop-Keeps (ended ∷ rest) c o w =
      all_stays (record c { incoming = rest }) o (stream-Awaits j c rest o w)
  recv_loop-Keeps (broken e ∷ rest) c o w =
      all_stays (record c { incoming = rest }) o (stream-Awaits j c rest o w)
  recv_loop-Keeps (arrived f ∷ rest) c o w =
      let c0 = record c { incoming = rest } in
      after_route-Keeps (route out now id f c0) (recv_loop out now id rest) o
        (route-Keeps f c0 o (stream-Awaits j c rest o w)) (recv_loop-Keeps rest)

  take_mail-Keeps :
      (mail : Option Frame) (c : OhmcpClient) (o : Option Frame)
      → Awaits j c o
      → Keeps o (take_mail out now id mail c).1
  take_mail-Keeps none c o w = recv_loop-Keeps c.incoming c o w
  take_mail-Keeps (some f) c o w = all_stays c o w

  pub recv_response-Keeps :
      (c : OhmcpClient) (o : Option Frame)
      → Awaits j c o
      → (got : Option Frame) × Awaits j (recv_response out now id c).1 (or_else o got)
  unfolding recv_response
  recv_response-Keeps c o w =
      let r = take_mail out now id (lookup id c.mailbox) c in
      let (got, w') = take_mail-Keeps (lookup id c.mailbox) c o w in
      (got, close-Awaits id j r.1 (or_else o got) other w')
