-- ===== src/Server/Answered.antt =====
-- crates/ohmcpd/src/server.rs: cancelled calls, subscriptions, and calls that are repeated.
use ohmcp.Cache.ResultCache.Sound.{get-put}
use ohmcp.Server.Calls.{
  if_allowed, after_get, finish, send_ref, after_key, wants_progress, send_result, execute, hit,
  handle_call, run_tool,
}
use ohmcp.Base.{
  subst, ◌-◌, inr, inl, Bool-cases, ℕ, Bool, true, false, not, ◌&&◌, ◌||◌, ◌≡◌, refl, ◌∙◌, ap, sym,
  arith, ok, none, some, List, if◌then◌else◌, ◌≤◌,
}
use ohmcp.Base.Bytes.{Text, ascii, text_eq, text_eq_iff}
use ohmcp.Base.Equality.{text_equality, nat_eq}
use ohmcp.Base.Maps.{contains, add, discard, contains-add, contains-discard}
use ohmcp.Core.Message.{CancelParams, CallToolParams, CallToolResult}
use ohmcp.Core.Frame.{Frame}
use ohmcp.Cache.ResultCache.{CacheKey, compute}
use ohmcp.Security.Acl.{check}
use ohmcp.Server.Tools.{has_resource, is_cacheable, call}
use ohmcp.Server.Session.{Outside, Session, Answers, goes_on, reply, reply_error}
use ohmcp.Server.Handlers.{subscription, handle_cancel, unwrapped, cancel_body, cancelled_by}
use ohmcp.Cache.ResultCache

module _ {Value : Type 0} (out : Outside Value) where
  -- A request to subscribe adds the resource if there is one of that name, a request to unsubscribe
  -- takes it away, and what else the session is subscribed to stays as it is.
  pub contains-subscription :
      (a : Answers) (is_sub : Bool) (id : ℕ) (uri other : Text) (s : Session Value)
      → contains other (subscription out a is_sub id uri s).subscribed ≡ (
          if is_sub
          then (text_eq uri other && has_resource uri s.shared.registry)
            || contains other s.subscribed
          else not (text_eq uri other) && contains other s.subscribed)
  unfolding subscription reply_error reply
  contains-subscription a true id uri other s =
      elim (Bool-cases (has_resource uri s.shared.registry)) [
        | inl e ↦ rw e (ground (arith, contains-add uri other s.subscribed))
        | inr e ↦ rw e (ground arith)
      ]
  contains-subscription a false id uri other s =
      ground (arith, contains-discard uri other s.subscribed)

  -- A call whose cancellation came just before it, and could be unwrapped and read, is answered with
  -- the error -32800 and nothing else: no tool runs, what was written, the downlink, what is shared
  -- and what was delivered stay as they are up to that answer, and the call is no longer on the list
  -- of cancelled calls.
  pub handle_call-handle_cancel :
      (a b : Answers) (g f : Frame) (s : Session Value) (body : List ℕ) (params : CancelParams)
      → (unwrapped out a g s).0 ≡ ok body
      → out.serde.read_cancel body ≡ some params
      → params.request_id ≡ f.header.request_id
      → (t : Session Value) × (u : Session Value) × (handle_cancel out a g s ≡ goes_on t)
        × (handle_call out b f t
            ≡ goes_on (reply_error out 32800 (ascii "request cancelled") f.header.request_id u))
        × (u.writer ≡ s.writer)
        × (u.shm ≡ s.shm)
        × (u.shared ≡ s.shared)
        × (u.delivered ≡ s.delivered)
        × (contains f.header.request_id u.cancelled ≡ false)
  unfolding handle_cancel handle_call
  handle_call-handle_cancel a b g f s body params h k e =
      let s' = (unwrapped out a g s).1 in
      let t = record s' { cancelled = add params.request_id s.cancelled } in
      let u = record t { cancelled = discard f.header.request_id t.cancelled } in
      let listed : contains f.header.request_id t.cancelled ≡ true =
        ground (arith, contains-add params.request_id f.header.request_id s.cancelled) in
      (
        t,
        u,
        ap (λ r. cancel_body out a r s') h ∙ ap (λ o. goes_on (cancelled_by out a o s')) k,
        rw listed refl,
        refl,
        refl,
        refl,
        refl,
        ground (arith, contains-discard f.header.request_id f.header.request_id t.cancelled),
      )

  abbrev pub key_for : CallToolParams Value → CacheKey
  key_for params = compute out.digest params.name (out.serde.to_vec params.arguments)

  -- The session after a look into the shared cache.
  abbrev pub looked_up : Answers → CacheKey → Session Value → Session Value
  looked_up a key s = record s {
    shared = record s.shared { cache = (ResultCache.get a.now key s.shared.cache).1 };
  }

  pub if_false : {B : Type 0} (b : Bool) (n m : B) → b ≡ false → (if b then n else m) ≡ m
  if_false b n m e = rw e

  pub if_true : {B : Type 0} (b : Bool) (n m : B) → b ≡ true → (if b then n else m) ≡ n
  if_true b n m e = rw e

  pub run_tool_allowed :
      (a : Answers) (id : ℕ) (params : CallToolParams Value) (s : Session Value)
      → wants_progress out a params.meta ≡ false
      → check s.agent_id params.name s.shared.acl ≡ ok tt
      → is_cacheable params.name s.shared.registry ≡ true
      → run_tool out a id params s ≡ after_key out a id params (some (key_for params)) s
  unfolding run_tool
  run_tool_allowed a id params s w h c =
      ap (if_allowed out a (check s.agent_id params.name s.shared.acl) id params) (if_false _ _ _ w)
      ∙ ap (λ r. if_allowed out a r id params s) h
      ∙ ap (λ k. after_key out a id params k s) (if_true _ (some (key_for params)) none c)

  first_call :
      (a : Answers) (id : ℕ) (params : CallToolParams Value) (s : Session Value)
      (result : CallToolResult)
      → (ResultCache.get a.now (key_for params) s.shared.cache).0 ≡ none
      → call params.name params.arguments s.shared.registry ≡ some result
      → after_key out a id params (some (key_for params)) s
        ≡ finish out a id params.name
            (some (key_for params))
            (some result)
            (looked_up a (key_for params) s)
  unfolding execute
  first_call a id params s result miss c =
      ap (λ o. after_get out a id params (key_for params) o (looked_up a (key_for params) s)) miss
      ∙ ap
          (λ r.
            finish out a id params.name (some (key_for params)) r (looked_up a (key_for params) s))
          c

  second_call :
      (b : Answers) (id : ℕ) (params : CallToolParams Value) (s : Session Value) (body : List ℕ)
      → (ResultCache.get b.now (key_for params) s.shared.cache).0 ≡ some body
      → contains (key_for params) s.delivered ≡ true
      → after_key out b id params (some (key_for params)) s
        ≡ send_ref out b id (key_for params) (looked_up b (key_for params) s)
  unfolding hit
  second_call b id params s body found had =
      ap (λ o. after_get out b id params (key_for params) o (looked_up b (key_for params) s)) found
      ∙ if_true _ _ _ had

  -- A call of a cacheable tool that is repeated in the session before the result is too old is
  -- answered by a reference to it, and the tool does not run again: if the agent may call the tool,
  -- no progress is asked for, the tool is there, and the cache did not have the result.
  pub run_tool_again :
      (a b : Answers) (id again : ℕ) (params : CallToolParams Value) (s : Session Value)
      (result : CallToolResult)
      → wants_progress out a params.meta ≡ false
      → check s.agent_id params.name s.shared.acl ≡ ok tt
      → is_cacheable params.name s.shared.registry ≡ true
      → (ResultCache.get a.now (key_for params) s.shared.cache).0 ≡ none
      → call params.name params.arguments s.shared.registry ≡ some result
      → b.now - a.now ≤ (ResultCache.get a.now (key_for params) s.shared.cache).1.ttl
      → let t = run_tool out a id params s in
        run_tool out b again params t
        ≡ send_ref out b again (key_for params) (looked_up b (key_for params) t)
  unfolding send_result
  run_tool_again a b id again params s result w h c miss run fresh =
      let key = key_for params in
      let body = out.serde.write_call_result result in
      let s0 = looked_up a key s in
      let t = finish out a id params.name (some key) (some result) s0 in
      let e : run_tool out a id params s ≡ t =
        run_tool_allowed a id params s w h c ∙ first_call a id params s result miss run in
      let again_t : run_tool out b again params t ≡ send_ref out b again key (looked_up b key t) =
        run_tool_allowed b again params t w h c
        ∙ second_call b again params t body
            ((get-put out.walk a.now b.now key body s0.shared.cache).0 fresh).0
            (ground (arith, contains-add key key s.delivered, text_eq_iff key key)) in
      subst
        (λ (r : Session Value).
          run_tool out b again params r ≡ send_ref out b again key (looked_up b key r))
        (sym e) again_t
