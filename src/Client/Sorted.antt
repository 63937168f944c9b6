-- ===== src/Client/Sorted.antt =====
-- The frame that a request gets is the response to it.
use ohmcp.Client.State.{
  Incoming, Action, ClientError, OhmcpClient, ClientOutside, arrived, ended, broken, late,
}
use ohmcp.Client.Receive.{
  after_route, route, route_resolved, take_mail, recv_response, recv_loop, gives_up, Kind,
  take_response, route_kind, resolve_shm, kind, is_progress, is_list_changed, is_updated,
  is_response,
}
use ohmcp.Core.Frame.{Frame}
use ohmcp.Base.{
  ◌∷◌, [], err, ok, Result, ◌∙◌, ap, subst, sym, refl, ==_iff, arith, List, some, none, Option,
  true, inr, inl, ◌≡◌, ◌≢◌, ℕ, Bool-cases, ◌==◌,
}
use ohmcp.Base.Maps.{contains, lookup-insert, insert, lookup-remove, lookup, remove}
use ohmcp.Client.Notices.{call_updated-Untouched, noticed_if_Untouched, call_progress-Untouched}
use ohmcp.Client.Kept.{resolve_shm_mailbox, recv_response-Keeps}
use ohmcp.Client.Mail.{is_answer, Awaits, or_else}
use ohmcp.Base.Equality.{nat_eq}
use ohmcp.Client.State

-- A response for the request that is waited for.
abbrev pub Answering : ℕ → Frame → Type 0
Answering id f = (f.header.request_id ≡ id) × (is_answer (kind f.header.msg_type) ≡ true)

-- The mail of each request is a response to it.
abbrev pub Sorted : List (ℕ × Frame) → Type 0
Sorted mail = (i : ℕ) (f : Frame) → lookup i mail ≡ some f → Answering i f

insert-Sorted :
    (mail : List (ℕ × Frame)) (f : Frame)
    → Sorted mail
    → is_answer (kind f.header.msg_type) ≡ true
    → Sorted (insert f.header.request_id f mail)
insert-Sorted mail f h a i g e =
    let l = lookup-insert f.header.request_id i f mail in
    elim (Bool-cases (f.header.request_id == i)) [
      | inl y ↦
          let same : some f ≡ some g = sym (l ∙ rw y refl) ∙ e in
          let own : f ≡ g = ground (arith, same) in
          subst (Answering i) own ((==_iff f.header.request_id i).0 y, a)
      | inr n ↦ h i g (ground (arith, l))
    ]

remove-Sorted : (mail : List (ℕ × Frame)) (id : ℕ) → Sorted mail → Sorted (remove id mail)
remove-Sorted mail id h i g e = h i g (ground (arith, lookup-remove id i mail))

module _ {Value : Type 0} (out : ClientOutside Value) (now : ℕ) where
  -- What one round makes of the mail, and the frame that it gives.
  abbrev pub Fits : ℕ → Option Frame → OhmcpClient → Type 0
  Fits id none c = Sorted c.mailbox
  Fits id (some f) c = Answering id f × Sorted c.mailbox

  route_kind-Fits :
      (k : Kind) (id : ℕ) (f : Frame) (c : OhmcpClient)
      → kind f.header.msg_type ≡ k
      → Sorted c.mailbox
      → Fits id (route_kind out now k id f c).0 (route_kind out now k id f c).1
  unfolding route_kind take_response
  route_kind-Fits is_progress id f c e h =
      subst Sorted (sym (call_progress-Untouched out now _ _).1) h
  route_kind-Fits is_list_changed id f c e h =
      subst Sorted (sym (noticed_if_Untouched c.on_list_changed State.list_changed c).1) h
  route_kind-Fits is_updated id f c e h =
      subst Sorted (sym (call_updated-Untouched out now _ _).1) h
  route_kind-Fits is_response id f c e h =
      let a : is_answer (kind f.header.msg_type) ≡ true = ap is_answer e in
      let i = f.header.request_id in
      elim (Bool-cases (i == id)) [
        | inl y ↦ rw y (((==_iff i id).0 y, a), h)
        | inr n ↦ rw n (elim (Bool-cases (contains i c.pending)) [
          | inl p ↦ elim (Bool-cases (contains i c.receivers)) [
            | inl q ↦ rw (p, q) (insert-Sorted c.mailbox f h a)
            | inr q ↦ rw (p, q) h
          ]
          | inr p ↦ rw p h
        ])
      ]

  -- After a round, what it gives fits; after an error the mail does.
  abbrev FitsRound : ℕ → Result ClientError (Option Frame) × OhmcpClient → Type 0
  FitsRound id (err e, c) = Sorted c.mailbox
  FitsRound id (ok o, c) = Fits id o c

  abbrev pub FitsResult : ℕ → Result ClientError Frame × OhmcpClient → Type 0
  FitsResult id (err e, c) = Sorted c.mailbox
  FitsResult id (ok f, c) = Answering id f × Sorted c.mailbox

  route_resolved-Fits :
      (id : ℕ) (r : Result ClientError Frame × OhmcpClient)
      → Sorted r.1.mailbox
      → FitsRound id (route_resolved out now id r)
  route_resolved-Fits id (err e, c) h = h
  route_resolved-Fits id (ok f, c) h = route_kind-Fits (kind f.header.msg_type) id f c refl h

  after_route-Fits :
      (id : ℕ) (r : Result ClientError (Option Frame) × OhmcpClient) (more : Action Frame)
      → FitsRound id r
      → ((c : OhmcpClient) → Sorted c.mailbox → FitsResult id (more c))
      → FitsResult id (after_route out now r more)
  after_route-Fits id (err e, c) more h k = h
  after_route-Fits id (ok none, c) more h k = k c h
  after_route-Fits id (ok (some f), c) more h k = h

  recv_loop-Fits :
      (id : ℕ) (incoming : List Incoming) (c : OhmcpClient)
      → Sorted c.mailbox
      → FitsResult id (recv_loop out now id incoming c)
  unfolding recv_loop route
  recv_loop-Fits id [] c h = h
  recv_loop-Fits id (late ∷ rest) c h = h
  recv_loop-Fits id (ended ∷ rest) c h = h
  recv_loop-Fits id (broken e ∷ rest) c h = h
  recv_loop-Fits id (arrived f ∷ rest) c h =
      let c0 = record c { incoming = rest } in
      after_route-Fits id (route out now id f c0) (recv_loop out now id rest)
        (route_resolved-Fits id (resolve_shm f c0)
          (subst Sorted (sym (resolve_shm_mailbox f c0)) h))
        (recv_loop-Fits id rest)

  take_mail-Fits :
      (id : ℕ) (o : Option Frame) (c : OhmcpClient)
      → lookup id c.mailbox ≡ o
      → Sorted c.mailbox
      → FitsResult id (take_mail out now id o c)
  take_mail-Fits id none c e h = recv_loop-Fits id c.incoming c h
  take_mail-Fits id (some f) c e h = (h id f e, h)

  gives_up-Fits :
      (id : ℕ) (r : Result ClientError Frame × OhmcpClient)
      → FitsResult id r
      → FitsResult id (gives_up id r)
  gives_up-Fits id (err e, c) h = remove-Sorted c.mailbox id h
  gives_up-Fits id (ok f, c) h = (h.0, remove-Sorted c.mailbox id h.1)

  -- The frame that a request gets is a response with the id of the request, whatever comes on the
  -- stream; and when the request ends, with a frame or with an error, each other request that waits
  -- has what it had or, if that was nothing, still waits or has got a response to it.
  pub recv_response-Sorted :
      (id j : ℕ) (c : OhmcpClient) (o : Option Frame)
      → Sorted c.mailbox
      → j ≢ id
      → Awaits j c o
      → FitsResult id (recv_response out now id c)
        × (got : Option Frame) × Awaits j (recv_response out now id c).1 (or_else o got)
  unfolding recv_response
  recv_response-Sorted id j c o h other w =
      let (got, kept) = recv_response-Keeps out now id j other c o w in
      (gives_up-Fits id _ (take_mail-Fits id (lookup id c.mailbox) c refl h), got, kept)
