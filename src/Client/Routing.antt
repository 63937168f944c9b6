-- ===== src/Client/Routing.antt =====
-- The responses that one holder of the reader's lock reads on the way reach the requests that they
-- are for.
use ohmcp.Client.Notices.{
  call_updated-Untouched, noticed_if_Untouched, Untouched, call_progress-Untouched,
}
use ohmcp.Client.Receive.{
  resolve_shm, route, after_route, recv_loop, is_progress, is_list_changed, is_updated, is_response,
  route_kind, kind, Kind, take_response,
}
use ohmcp.Client.State.{
  Notice, progressed, ClientError, Incoming, arrived, ended, broken, late, OhmcpClient,
  ClientOutside,
}
use ohmcp.Base.{
  subst, sym, ◌++◌, ok, Result, ◌∙◌, ap, refl, ◌&&◌, ℕ, false, ◌≡◌, ◌≢◌, arith, List, [], ◌∷◌,
  Option, none, some, if◌then◌else◌, ◌==◌, ==_iff, inl, inr, Bool-cases,
}
use ohmcp.Base.Equality.{nat_eq}
use ohmcp.Base.Maps.{lookup, contains, lookup-insert, contains-discard}
use ohmcp.Core.Frame.{Frame, shm_ref}
use ohmcp.Client.Mail.{
  Plain, first_for, or_else, or_else-none, or_else_assoc, or_else_if, Awaits, is_answer,
}
use ohmcp.Client.State

module _ {Value : Type 0} (out : ClientOutside Value) (now : ℕ) (id j : ℕ) (other : j ≢ id) where
  -- A frame that is none for this request leaves it as it is, and one that is comes into its mail if
  -- nothing came before.
  abbrev hears : Frame → Option Frame → Option Frame
  hears f o =
      or_else o
        (if is_answer (kind f.header.msg_type) && f.header.request_id == j then some f else none)

  take_response-Awaits :
      (f : Frame) (c : OhmcpClient) (o : Option Frame)
      → Awaits j c o
      → Awaits j
          (take_response out now id f c).1
          (or_else o (if f.header.request_id == j then some f else none))
  unfolding take_response
  take_response-Awaits f c none w =
      let i = f.header.request_id in
      elim (Bool-cases (i == j)) [
        | inl e ↦ rw e (
            ground (
              arith,
              contains-discard i j c.pending,
              lookup-insert i j f c.mailbox,
              ==_iff i j,
              other,
            ))
        | inr e ↦ rw e (
            ground (
              arith,
              contains-discard i j c.pending,
              contains-discard id j c.pending,
              lookup-insert i j f c.mailbox,
              other,
            ))
      ]
  take_response-Awaits f c (some g) w =
      let i = f.header.request_id in
      ground (
        arith,
        contains-discard i j c.pending,
        contains-discard id j c.pending,
        lookup-insert i j f c.mailbox,
        ==_iff i j,
      )

  Untouched-Awaits :
      (o : Option Frame) (c d : OhmcpClient) → Untouched c d → Awaits j c o → Awaits j d o
  Untouched-Awaits none c d u w =
      (ap (contains j) u.0 ∙ w.0, ap (lookup j) u.1 ∙ w.1, ap (contains j) u.3 ∙ w.2)
  Untouched-Awaits (some f) c d u w = (ap (contains j) u.0 ∙ w.0, ap (lookup j) u.1 ∙ w.1)

  untouched_incoming :
      (o : Option Frame) (c : OhmcpClient) (rest : List Incoming)
      → Awaits j c o
      → Awaits j (record c { incoming = rest }) o
  untouched_incoming none c rest w = w
  untouched_incoming (some f) c rest w = w

  take_response_incoming :
      (f : Frame) (c : OhmcpClient) → (take_response out now id f c).1.incoming ≡ c.incoming
  unfolding take_response
  take_response_incoming f c = ground arith

  -- A notification leaves the request as it is.
  notice-Awaits :
      (o : Option Frame) (c d : OhmcpClient)
      → Untouched c d
      → Awaits j c o
      → Awaits j d (or_else o none) × (d.incoming ≡ c.incoming)
  notice-Awaits o c d u w = (rw (or_else-none o) (Untouched-Awaits o c d u w), u.2)

  pub route_kind-Awaits :
      (k : Kind) (f : Frame) (c : OhmcpClient) (o : Option Frame)
      → Awaits j c o
      → Awaits j
          (route_kind out now k id f c).1
          (or_else o (if is_answer k && f.header.request_id == j then some f else none))
        × ((route_kind out now k id f c).1.incoming ≡ c.incoming)
  unfolding route_kind
  route_kind-Awaits is_progress f c o w =
      notice-Awaits o c (route_kind out now is_progress id f c).1
        (call_progress-Untouched out now _ _) w
  route_kind-Awaits is_list_changed f c o w =
      notice-Awaits o c (route_kind out now is_list_changed id f c).1
        (noticed_if_Untouched c.on_list_changed State.list_changed c) w
  route_kind-Awaits is_updated f c o w =
      notice-Awaits o c (route_kind out now is_updated id f c).1
        (call_updated-Untouched out now _ _) w
  route_kind-Awaits is_response f c o w = (take_response-Awaits f c o w, take_response_incoming f c)

  -- What a reading of the stream took from it, and what this request has afterwards.
  abbrev pub Heard : List Incoming → Option Frame → OhmcpClient → Type 0
  Heard incoming o c' =
      (consumed : List Incoming) × (incoming ≡ consumed ++ c'.incoming)
      × Awaits j c' (or_else o (first_for j consumed))

  next_round :
      (f : Frame) (rest : List Incoming) (o : Option Frame) (mine : Option Frame) (c1 : OhmcpClient)
      (g : Frame) (c' : OhmcpClient)
      → Awaits j c1 (hears f o)
      → c1.incoming ≡ rest
      → (recv_loop out now id rest c1 ≡ (ok g, c') → Heard rest (hears f o) c')
      → after_route out now (ok mine, c1) (recv_loop out now id rest) ≡ (ok g, c')
      → Heard (arrived f ∷ rest) o c'
  next_round f rest o (some own) c1 g c' w e more h =
      let same : c1 ≡ c' = ap (λ (r : Result ClientError Frame × OhmcpClient). r.1) h in
      (
        arrived f ∷ [],
        ap (λ l. arrived f ∷ l) (sym e ∙ ap (λ (x : OhmcpClient). x.incoming) same),
        subst (λ (x : OhmcpClient). Awaits j x (hears f o)) same w,
      )
  next_round f rest o none c1 g c' w e more h =
      let (consumed, split, heard) = more h in
      (
        arrived f ∷ consumed,
        ap (λ l. arrived f ∷ l) split,
        subst (λ (x : Option Frame). Awaits j c' x)
            (or_else_assoc o _ (first_for j consumed)
              ∙ ap (or_else o) (or_else_if _ f (first_for j consumed)))
            heard,
      )

  route_plain :
      (f : Frame) (c : OhmcpClient)
      → shm_ref f.header.flags ≡ false
      → route out now id f c ≡ (
        ok (route_kind out now (kind f.header.msg_type) id f c).0,
        (route_kind out now (kind f.header.msg_type) id f c).1,
      )
  unfolding route resolve_shm
  route_plain f c e = rw e refl

  pub recv_loop-Heard :
      (incoming : List Incoming) (c : OhmcpClient) (o : Option Frame) (g : Frame) (c' : OhmcpClient)
      → Plain incoming
      → Awaits j c o
      → recv_loop out now id incoming c ≡ (ok g, c')
      → Heard incoming o c'
  unfolding recv_loop
  recv_loop-Heard [] c o g c' p w h = ground arith
  recv_loop-Heard (late ∷ rest) c o g c' p w h = ground arith
  recv_loop-Heard (ended ∷ rest) c o g c' p w h = ground arith
  recv_loop-Heard (broken e ∷ rest) c o g c' p w h = ground arith
  recv_loop-Heard (arrived f ∷ rest) c o g c' p w h =
      let c0 = record c { incoming = rest } in
      let r = route_kind out now (kind f.header.msg_type) id f c0 in
      let (w', e) =
        route_kind-Awaits (kind f.header.msg_type) f c0 o (untouched_incoming o c rest w) in
      next_round f rest o r.0 r.1 g c' w' e
        (λ more. recv_loop-Heard rest r.1 (hears f o) g c' p.1 w' more)
        (ap (λ x. after_route out now x (recv_loop out now id rest)) (sym (route_plain f c0 p.0))
          ∙ h)
