-- ===== src/Exchange/Serving.antt =====
-- crates/ohmcpd/src/server.rs: how the daemon answers a call with a whole result.
use ohmcp.Server.Login.{handle_auth, is_some}
use ohmcp.Server.Dispatch.{
  is_auth, dispatch_resolved, resolve_uplink, handle_request, dispatch, handle_frame,
}
use ohmcp.Base.Bytes.{ascii, Text}
use ohmcp.Server.Handlers.{parsed, with_body}
use ohmcp.Server.Session.{reply_error, goes_on, queued, Session, Answers, Outside}
use ohmcp.Base.{
  not, Result, ◌∙◌, ap, List, some, none, false, true, inr, inl, ◌⊎◌, subst, sym, ok, Bool-cases, ℕ,
  ◌≡◌, refl, Bool, if◌then◌else◌, Option,
}
use ohmcp.Pipeline.{unwrap, PayloadPipeline}
use ohmcp.Server.Calls.{
  handle_call, if_allowed, key_of, after_key, run_tool, store, deliver, send_ref, finish, after_get,
  hit, execute, wants_progress, set_flags, wrap_maybe_shm, send_result,
}
use ohmcp.Server.Answered.{run_tool_allowed, looked_up, if_true, if_false, key_for}
use ohmcp.Server.Tools.{is_cacheable, call}
use ohmcp.Base.Maps.{contains}
use ohmcp.Security.Acl.{check}
use ohmcp.Cache.ResultCache.{CacheKey}
use ohmcp.Transport.Shm.{ShmRing}
use ohmcp.Core.Frame.{cacheable_bit, Frame, FrameFlags}
use ohmcp.Core.Message.{CallToolResult, CallToolParams}
use ohmcp.Core.MsgType.{call_tool}
use ohmcp.Base.Equality.{nat_eq, text_equality}
use ohmcp.Cache.ResultCache

abbrev pub bits_of : Bool → FrameFlags
bits_of marked = if marked then cacheable_bit else 0

-- The frame of a whole result, the pipeline and the ring after it.
abbrev pub result_sent :
    {Value : Type 0}
    → Outside Value
    → ℕ
    → CallToolResult
    → Session Value
    → Frame × PayloadPipeline × Option ShmRing
result_sent out id result s =
    wrap_maybe_shm out.lz4 out.aead s.pipeline s.shm id (out.serde.write_call_result result)

-- The shared cache has nothing for the call, or its result.
abbrev pub Right : {Value : Type 0} → Outside Value → CallToolResult → Option (List ℕ) → Type 0
Right out result o = (o ≡ none) ⊎ (o ≡ some (out.serde.write_call_result result))

module _ {Value : Type 0} (out : Outside Value) (a : Answers) (id : ℕ)
    (params : CallToolParams Value) (result : CallToolResult) where
  abbrev Sends : Bool → Session Value → Session Value → Type 0
  Sends marked s t =
      (u : Session Value) × (t
        ≡ queued (set_flags (bits_of marked) (result_sent out id result s).0) u)
      × (u.shm ≡ (result_sent out id result s).2)
      × (u.pipeline ≡ (result_sent out id result s).1)

  send_result-Sends :
      (marked : Bool) (s u : Session Value)
      → u.pipeline ≡ s.pipeline
      → u.shm ≡ s.shm
      → Sends marked s
          (send_result out a id (bits_of marked) (out.serde.write_call_result result) u)
  unfolding send_result
  send_result-Sends marked s u p r =
      let w =
        wrap_maybe_shm out.lz4 out.aead u.pipeline u.shm id (out.serde.write_call_result result) in
      (record u { pipeline = w.1; shm = w.2 }, rw (p, r) refl, rw (p, r) refl, rw (p, r) refl)

  -- The tool is not in the cache.
  execute-Sends :
      (s u : Session Value) (key : Option CacheKey)
      → u.pipeline ≡ s.pipeline
      → u.shm ≡ s.shm
      → call params.name params.arguments u.shared.registry ≡ some result
      → Sends (is_some key) s (execute out a id params key u)
  unfolding execute
  execute-Sends s u none p r ran =
      subst (λ o. Sends false s (finish out a id params.name none o u)) (sym ran)
        (send_result-Sends false s u p r)
  execute-Sends s u (some key) p r ran =
      let body = out.serde.write_call_result result in
      subst (λ o. Sends true s (finish out a id params.name (some key) o u)) (sym ran)
        (send_result-Sends true s (deliver out a key (store out a key body u)) p r)

  after_get-Sends :
      (s u : Session Value) (key : CacheKey) (o : Option (List ℕ))
      → u.pipeline ≡ s.pipeline
      → u.shm ≡ s.shm
      → contains key u.delivered ≡ false
      → call params.name params.arguments u.shared.registry ≡ some result
      → Right out result o
      → Sends true s (after_get out a id params key o u)
  unfolding hit
  after_get-Sends s u key o p r new ran (inl e) =
      subst (λ x. Sends true s (after_get out a id params key x u)) (sym e)
        (execute-Sends s u (some key) p r ran)
  after_get-Sends s u key o p r new ran (inr e) =
      let body = out.serde.write_call_result result in
      subst (λ x. Sends true s (after_get out a id params key x u)) (sym e)
        (subst
          (λ (b : Bool). Sends true s (
            if b
            then send_ref out a id key u
            else send_result out a id cacheable_bit body (deliver out a key u)))
          (sym new) (send_result-Sends true s (deliver out a key u) p r))

  -- A call of a tool whose results are stored, and whose result the cache has not.
  pub run_tool_missed-Sends :
      (s : Session Value)
      → wants_progress out a params.meta ≡ false
      → check s.agent_id params.name s.shared.acl ≡ ok tt
      → is_cacheable params.name s.shared.registry ≡ true
      → call params.name params.arguments s.shared.registry ≡ some result
      → (ResultCache.get a.now (key_for out params) s.shared.cache).0 ≡ none
      → Sends true s (run_tool out a id params s)
  run_tool_missed-Sends s quiet allowed keyed ran missed =
      let key = key_for out params in
      let t = looked_up out a key s in
      subst (Sends true s)
        (sym (
          run_tool_allowed out a id params s quiet allowed keyed
          ∙ ap (λ o. after_get out a id params key o t) missed))
        (execute-Sends s t (some key) refl refl ran)

  -- A call without progress of a tool that is there, by an agent that may call it, is answered by
  -- the whole result, unless this session had it before.
  pub run_tool-Sends :
      (s : Session Value)
      → wants_progress out a params.meta ≡ false
      → check s.agent_id params.name s.shared.acl ≡ ok tt
      → call params.name params.arguments s.shared.registry ≡ some result
      → contains (key_for out params) s.delivered ≡ false
      → Right out result (ResultCache.get a.now (key_for out params) s.shared.cache).0
      → Sends (is_cacheable params.name s.shared.registry) s (run_tool out a id params s)
  unfolding run_tool
  run_tool-Sends s quiet allowed ran new right =
      let keyed = is_cacheable params.name s.shared.registry in
      let goes : run_tool out a id params s ≡ after_key out a id params (key_of out a params s) s =
        ap (if_allowed out a (check s.agent_id params.name s.shared.acl) id params)
          (if_false out _ _ _ quiet)
        ∙ ap (λ r. if_allowed out a r id params s) allowed in
      let key = key_for out params in
      elim (Bool-cases keyed) [
        | inl e ↦
            subst (Sends keyed s)
              (sym
                (goes ∙ ap (λ k. after_key out a id params k s) (if_true out _ (some key) none e)))
              (rw e (after_get-Sends s (looked_up out a key s) key _ refl refl new ran right))
        | inr e ↦
            subst (Sends keyed s)
              (sym
                (goes ∙ ap (λ k. after_key out a id params k s) (if_false out _ (some key) none e)))
              (rw e (execute-Sends s s none refl refl ran))
      ]

module _ {Value : Type 0} (out : Outside Value) (a : Answers) (f g : Frame) (body : List ℕ)
    (params : CallToolParams Value) (s : Session Value) (ring : Option ShmRing) where
  abbrev taken : Session Value
  taken = record s { shm_up = ring }

  handle_call-run_tool :
      contains g.header.request_id s.cancelled ≡ false
      → unwrap out.lz4 out.aead a.now g s.pipeline ≡ (ok body, s.pipeline)
      → out.serde.read_call body ≡ some params
      → handle_call out a g taken ≡ goes_on (run_tool out a g.header.request_id params taken)
  unfolding handle_call with_body
  handle_call-run_tool kept opens reads =
      let go = run_tool out a g.header.request_id in
      if_false out _ _ _ kept
      ∙ ap
          (λ (r : Result Text (List ℕ) × PayloadPipeline).
            with_body out a out.serde.read_call go r.0 (record taken { pipeline = r.1 }))
          opens
      ∙ ap (parsed out a taken (λ b. go b taken)) reads

  -- A call that comes in an open session, is not cancelled and can be read, is run.
  pub handle_frame-run_tool :
      s.authenticated ≡ true
      → contains g.header.request_id s.cancelled ≡ false
      → resolve_uplink f s.shm_up ≡ some (g, ring)
      → g.header.msg_type ≡ call_tool
      → unwrap out.lz4 out.aead a.now g s.pipeline ≡ (ok body, s.pipeline)
      → out.serde.read_call body ≡ some params
      → handle_frame out a f s ≡ goes_on (run_tool out a g.header.request_id params taken)
  unfolding handle_frame dispatch handle_request
  handle_frame-run_tool known kept resolves t opens reads =
      let id = g.header.request_id in
      let refused = goes_on (reply_error out 32001 (ascii "authentication required") id taken) in
      ap (λ o. dispatch_resolved out a o s) resolves
      ∙ ap
          (λ ty.
            if is_auth ty
            then handle_auth out a id g.payload taken
            else if not s.authenticated
            then refused
            else handle_request out a ty g taken)
          t
      ∙ ap (λ b. if not b then refused else handle_call out a g taken) known
      ∙ handle_call-run_tool kept opens reads
