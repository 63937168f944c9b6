-- ===== src/Exchange/Again.antt =====
-- A call of a cacheable tool that is made again: the daemon answers by a reference, and the client
-- looks into its own cache.
use ohmcp.Base.{
  inr, inl, refl, Bool-cases, false, true, ◌-◌, err, ok, Result, ℕ, ◌≤◌, ◌<◌, ◌≡◌, ap, ◌∙◌, arith,
  List, none, some, ok_or, length,
}
use ohmcp.Pipeline.{remember, PayloadPipeline, wrap_cache_ref, unwrap}
use ohmcp.Client.Request.{is_error, finish_request, Moment, unwrap_response, unwrap_result}
use ohmcp.Core.Frame.{cacheable, cache_ref, Frame}
use ohmcp.Client.State.{unwrapping, OhmcpClient, ClientOutside}
use ohmcp.Server.Tools.{is_cacheable, call}
use ohmcp.Server.Answered.{run_tool_again, looked_up, key_for}
use ohmcp.Server.Session.{queued, Answers, Outside, Session}
use ohmcp.Server.Calls.{send_ref, run_tool, wants_progress}
use ohmcp.Security.Acl.{check}
use ohmcp.Core.Message.{CallToolParams, CallToolResult}
use ohmcp.Base.Bytes.{Text, ascii}
use ohmcp.Core.MsgType.{call_tool_result}
use ohmcp.Cache.ResultCache.{CacheKey, compute}
use ohmcp.Transport.Shm.{shm_threshold}
use ohmcp.Pipeline.RoundTrip.{Agree, unwrap-wrap_cache_ref}
use ohmcp.Client.Methods.{call_key}
use ohmcp.Exchange.Login.{Compatible}
use ohmcp.Cache.ResultCache

module _ {Value : Type 0} (out : Outside Value) (cout : ClientOutside Value)
    (k : Compatible out cout) where
  -- The frame in which the daemon sends a reference.
  abbrev pub ref_answer : ℕ → CacheKey → Session Value → Frame
  ref_answer id key s = (wrap_cache_ref out.lz4 out.aead call_tool_result id key s.pipeline).0

  -- What a client makes of it.
  pub unwrap_ref_answer :
      (m : Moment) (id : ℕ) (key : CacheKey) (s : Session Value) (c : OhmcpClient)
      → Agree s.pipeline.cipher c.pipeline.cipher
      → length key ≡ 32
      → (unwrap_response cout m (ref_answer id key s) c).0
        ≡ unwrap_result cout m
            (ok_or (ResultCache.get m.now key c.pipeline.cache).0 (ascii "cache ref miss"))
  unfolding unwrap_response
  unwrap_ref_answer m id key s c agree l =
      ap (λ (r : Result Text (List ℕ) × PayloadPipeline). unwrap_result cout m r.0)
        ((λ i. unwrap (k.same_lz4 i) (k.same_aead i) m.now (ref_answer id key s) c.pipeline)
          ∙ unwrap-wrap_cache_ref out.lz4 out.aead m.now s.pipeline c.pipeline call_tool_result id
              key agree l)

  -- A client that made the call with large arguments, or for progress, has no key for it.
  call_key_large :
      (name : Text) (canonical : List ℕ)
      → shm_threshold ≤ length canonical
      → call_key cout name canonical ≡ none
  call_key_large name canonical h = ground arith

  pub call_key_small :
      (name : Text) (canonical : List ℕ)
      → length canonical < shm_threshold
      → call_key cout name canonical ≡ some (compute cout.digest name canonical)
  call_key_small name canonical h = ground arith

  finish_none :
      (m : Moment) (f : Frame) (body : List ℕ) (c : OhmcpClient)
      → (finish_request cout m none f body c).1 ≡ c
  unfolding finish_request
  finish_none m f body c = elim (Bool-cases (is_error f.header.msg_type)) [
    | inl e ↦ rw e refl
    | inr e ↦ rw e refl
  ]

  pub finish_some :
      (m : Moment) (key : CacheKey) (f : Frame) (body : List ℕ) (c : OhmcpClient)
      → is_error f.header.msg_type ≡ false
      → cacheable f.header.flags ≡ true
      → cache_ref f.header.flags ≡ false
      → finish_request cout m (some key) f body c
        ≡ (ok body, record c { pipeline = remember cout.walk m.now key body c.pipeline })
  unfolding finish_request
  finish_some m key f body c e mark whole = rw (e, mark, whole) refl

  -- The daemon's first answer was the result of the tool, and the call comes again before that is
  -- too old; the ends agree on the key.
  module _ (a b : Answers) (id again : ℕ) (params : CallToolParams Value) (s : Session Value)
      (result : CallToolResult) (quiet : wants_progress out a params.meta ≡ false)
      (allowed : check s.agent_id params.name s.shared.acl ≡ ok tt)
      (stored : is_cacheable params.name s.shared.registry ≡ true)
      (missed : (ResultCache.get a.now (key_for out params) s.shared.cache).0 ≡ none)
      (ran : call params.name params.arguments s.shared.registry ≡ some result)
      (fresh : b.now - a.now ≤ (ResultCache.get a.now (key_for out params) s.shared.cache).1.ttl)
      (m n : Moment) (f : Frame) (body canonical : List ℕ) (c : OhmcpClient)
      (agree : Agree (run_tool out a id params s).pipeline.cipher c.pipeline.cipher)
      (digested : length (key_for out params) ≡ 32) where
    -- The daemon's session after the first call, and the client after its answer.
    abbrev called : Session Value
    called = run_tool out a id params s

    abbrev answered : OhmcpClient
    answered = (finish_request cout m (call_key cout params.name canonical) f body c).1

    abbrev second : Session Value
    second = looked_up out b (key_for out params) called

    answers_ref :
        (u : Session Value) × (run_tool out b again params called
          ≡ queued (ref_answer again (key_for out params) second) u)
    unfolding send_ref
    answers_ref = (
      record second {
        pipeline =
            (wrap_cache_ref out.lz4 out.aead call_tool_result again (key_for out params)
              second.pipeline).1;
      },
      run_tool_again out a b id again params s result quiet allowed stored missed ran fresh,
    )

    -- With large arguments the client does not store the result, so it cannot resolve the reference
    -- by which the daemon answers the same call again: that call fails.
    pub call_again_large :
        shm_threshold ≤ length canonical
        → (ResultCache.get n.now (key_for out params) c.pipeline.cache).0 ≡ none
        → (g : Frame) × (u : Session Value) × (run_tool out b again params called ≡ queued g u)
          × ((unwrap_response cout n g answered).0 ≡ err (unwrapping (ascii "cache ref miss")))
    call_again_large large absent =
        let key = key_for out params in
        let g = ref_answer again key second in
        let forgotten : answered ≡ c =
          ap (λ o. (finish_request cout m o f body c).1)
            (call_key_large params.name canonical large)
          ∙ finish_none m f body c in
        (
          g,
          answers_ref.0,
          answers_ref.1,
          ap (λ x. (unwrap_response cout n g x).0) forgotten
              ∙ unwrap_ref_answer n again key second c agree digested
              ∙ ap (λ o. unwrap_result cout n (ok_or o (ascii "cache ref miss"))) absent,
        )
