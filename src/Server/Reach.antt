-- ===== src/Server/Reach.antt =====
-- crates/ohmcpd/src/server.rs: the sessions that the daemon comes to, whatever frames and events
-- they take, and whatever other sessions and the peers do meanwhile.
use ohmcp.Base.{
  subst, ℕ, true, ◌≡◌, refl, ◌∙◌, sym, arith, Result, ok, err, Option, none, some, List,
}
use ohmcp.Base.Bytes.{Text, ascii}
use ohmcp.Base.Equality.{text_equality}
use ohmcp.Base.Maps.{contains, add}
use ohmcp.Core.Error.{CoreError}
use ohmcp.Core.MsgType.{resource_updated, resource_list_changed}
use ohmcp.Core.Frame.{Frame}
use ohmcp.Security.Acl.{grant_all}
use ohmcp.Transport.Shm.{ShmRing}
use ohmcp.Transport.Stream.{Write, flush}
use ohmcp.Server.Tools.{ToolRegistry, ResourceEvent, updated, list_changed}
use ohmcp.Server.Session.{
  Outside, Shared, Session, Answers, goes_on, session_at_start, shared_at_start,
}
use ohmcp.Server.Keeping.{After}
use ohmcp.Server.Access.{Guarded, Guarded-dispatch, Guarded-reply, Guarded-writer, Guarded-if}
use ohmcp.Server.Dispatch.{
  Event, frame, idle, resource, end_of_stream, read_error, shutdown, step, handle_frame,
  resolve_uplink, dispatch_resolved, notify, flushed, after_flush,
}

-- The peer writes into a ring that there is; it cannot make one.
pub data Rewritten : Option ShmRing → Option ShmRing → Type 0 where
  absent : Rewritten none none
  present : {r q : ShmRing} → Rewritten (some r) (some q)

module _ {Value : Type 0} (out : Outside Value) (registry : ToolRegistry Value)
    (token : Option (List ℕ)) where
  -- A session starts with what the daemon shares; then turns of its own loop, changes that other
  -- sessions make to what is shared, which take no grant back, and changes of its rings by the peer.
  pub data Reachable : Session Value → Type 0 where
    start : Reachable (session_at_start (shared_at_start registry token))
    turn : (e : Event) {s t : Session Value} → Reachable s → step out e s ≡ goes_on t → Reachable t
    others :
        (shared : Shared Value) {s : Session Value}
        → Reachable s
        → shared.token ≡ s.shared.token
        → ((agent : Text)
            → contains agent s.shared.acl.allow_all ≡ true
            → contains agent shared.acl.allow_all ≡ true)
        → Reachable (record s { shared = shared })
    peer :
        (down up : Option ShmRing) {s : Session Value}
        → Reachable s
        → Rewritten s.shm down
        → Rewritten s.shm_up up
        → Reachable (record s { shm = down; shm_up = up })

module _ {Value : Type 0} (out : Outside Value) where
  flushed_result :
      (r : Result CoreError (Unit {0})) (s : Session Value)
      → Guarded s
      → After Guarded (after_flush out r goes_on s)
  flushed_result (ok tt) s g = g
  flushed_result (err e) s g = g

  Guarded-flushed :
      (w : Write) (s : Session Value) → Guarded s → After Guarded (flushed out w goes_on s)
  Guarded-flushed w s g =
      flushed_result (flush w s.writer).0 _ (Guarded-writer s (flush w s.writer).1 g)

  Guarded-notify :
      (w : Write) (e : ResourceEvent) (s : Session Value)
      → Guarded s
      → After Guarded (notify out w e s)
  unfolding notify
  Guarded-notify w (updated uri) s g =
      Guarded-if (contains uri s.subscribed) _ _
        (λ e. Guarded-flushed w _ (Guarded-reply out resource_updated 0 _ s g)) (λ e. g)
  Guarded-notify w list_changed s g =
      Guarded-if s.authenticated _ _
        (λ e. Guarded-flushed w _ (Guarded-reply out resource_list_changed 0 _ s g)) (λ e. g)

  -- Without an uplink no reference is resolved.
  resolve_uplink-none :
      (f g : Frame) (r : Option ShmRing) → resolve_uplink f none ≡ some (g, r) → r ≡ none
  unfolding resolve_uplink
  resolve_uplink-none f g r e = ground arith

  Guarded-resolved :
      (a : Answers) (f : Frame) (s : Session Value)
      → Guarded s
      → (o : Option (Frame × Option ShmRing)) → resolve_uplink f s.shm_up ≡ o
      → After Guarded (dispatch_resolved out a o s)
  Guarded-resolved a f s g none e = g
  Guarded-resolved a f s g (some (f', ring)) e =
      Guarded-dispatch out a f' (record s { shm_up = ring })
        (record {
          closed = λ c. (
            (g.closed c).0,
            resolve_uplink-none f f' ring (
                subst (λ (x : Option ShmRing). resolve_uplink f x ≡ some (f', ring)) (g.closed c).1
                  e),
            (g.closed c).2,
          );
          keyed = g.keyed;
          allowed = g.allowed;
        })

  Guarded-step : (e : Event) (s : Session Value) → Guarded s → After Guarded (step out e s)
  unfolding step handle_frame
  Guarded-step (frame a f) s g = Guarded-resolved a f s g (resolve_uplink f s.shm_up) refl
  Guarded-step (idle w) s g = Guarded-flushed w s g
  Guarded-step (resource w e) s g = Guarded-notify w e s g
  Guarded-step (end_of_stream w) s g = Guarded-writer s _ g
  Guarded-step (read_error e) s g = g
  Guarded-step (shutdown w) s g = Guarded-writer s _ g

  Rewritten-none : (a b : Option ShmRing) → Rewritten a b → a ≡ none → b ≡ none
  Rewritten-none none none absent e = refl
  Rewritten-none (some r) (some q) present e = ground arith
  Rewritten-none none (some q) w e = elim w [ ]
  Rewritten-none (some r) none w e = elim w [ ]

  anonymous_allowed :
      (registry : ToolRegistry Value) (token : Option (List ℕ))
      → contains (ascii "anonymous") (shared_at_start registry token).acl.allow_all ≡ true
  unfolding grant_all contains add
  anonymous_allowed registry token = refl

  pub Reachable-Guarded :
      (registry : ToolRegistry Value) (token : Option (List ℕ)) (s : Session Value)
      → Reachable out registry token s
      → Guarded s
  Reachable-Guarded registry none s start = record {
    closed = λ c. ground arith;
    keyed = λ o t q. ground arith;
    allowed = anonymous_allowed registry none;
  }
  Reachable-Guarded registry (some token) s start = record {
    closed = λ c. (refl, refl, refl);
    keyed = λ o t q. ground arith;
    allowed = anonymous_allowed registry (some token);
  }
  Reachable-Guarded registry token s (turn e {s = r} h p) =
      subst (After Guarded) p (Guarded-step e r (Reachable-Guarded registry token r h))
  Reachable-Guarded registry token s (others shared {s = r} h p grown) =
      let g = Reachable-Guarded registry token r h in
      record {
        closed = g.closed;
        keyed = λ o t q. g.keyed o t (sym p ∙ q);
        allowed = grown r.agent_id g.allowed;
      }
  Reachable-Guarded registry token s (peer down up {s = r} h p q) =
      let g = Reachable-Guarded registry token r h in
      record {
        closed = λ c. ((g.closed c).0, Rewritten-none r.shm_up up q (g.closed c).1, (g.closed c).2);
        keyed = g.keyed;
        allowed = g.allowed;
      }
