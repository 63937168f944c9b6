-- ===== src/Server/Requests.antt =====
-- crates/ohmcpd/src/server.rs: no call changes who the agent is, what it may do, or the key.
use ohmcp.Server.Calls.{
  report_progress, store, key_of, after_key, if_allowed, after_write, deliver, after_get,
  wants_progress, write_large, send_result, send_ref, hit, finish, execute, run_tool, handle_call,
  wrap_maybe_shm,
}
use ohmcp.Base.Equality.{text_equality, nat_eq}
use ohmcp.Core.Frame.{cacheable_bit, Frame, FrameFlags}
use ohmcp.Security.Acl.{check}
use ohmcp.Core.Message.{CallToolParams, CallToolResult}
use ohmcp.Server.Handlers.{parsed, with_body, unwrapped}
use ohmcp.Cache.ResultCache.{CacheKey}
use ohmcp.Security.{SecurityError}
use ohmcp.Transport.Shm.{ShmRing}
use ohmcp.Base.Maps.{contains, discard}
use ohmcp.Base.{
  ap, ℕ, Bool, true, false, ◌≡◌, refl, Result, ok, err, Option, none, some, List, if◌then◌else◌,
}
use ohmcp.Base.Bytes.{Text}
use ohmcp.Core.MsgType.{progress, MsgType, call_tool_result}
use ohmcp.Server.Session.{Outside, Session, Answers, Next, reply, reply_error}
use ohmcp.Server.Keeping.{
  Keeps, Keeps-all, Keeps-then, After, pipeline-Keeps, wrap_key, wrap_cache_ref_key, unwrap_key,
}
use ohmcp.Pipeline.{PayloadPipeline, encryption_enabled}
use ohmcp.Cache.ResultCache

module _ {Value : Type 0} (out : Outside Value) where
  pub reply-Keeps :
      (t : MsgType) (id : ℕ) (body : List ℕ) (s : Session Value) → Keeps s (reply out t id body s)
  unfolding reply
  reply-Keeps t id body s = record {
    same_acl = refl;
    same_token = refl;
    same_flag = refl;
    same_agent = refl;
    same_key = wrap_key out.lz4 out.aead t id body s.pipeline;
  }

  pub reply_error-Keeps :
      (code : ℕ) (message : Text) (id : ℕ) (s : Session Value)
      → Keeps s (reply_error out code message id s)
  unfolding reply_error
  reply_error-Keeps code message id s = reply-Keeps _ id _ s

  pub unwrapped-Keeps :
      (a : Answers) (f : Frame) (s : Session Value) → Keeps s (unwrapped out a f s).1
  unwrapped-Keeps a f s = pipeline-Keeps s _ (unwrap_key out.lz4 out.aead a.now f s.pipeline)

  parsed-After :
      {B : Type 0} (a : Answers) (go : B → Session Value → Session Value)
      → ((b : B) (s : Session Value) → Keeps s (go b s))
      → (s t : Session Value) → Keeps s t
      → (o : Option B) → After (Keeps s) (parsed out a t (λ b. go b t) o)
  parsed-After a go h s t k none = k
  parsed-After a go h s t k (some b) = Keeps-then k (h b t)

  pub with_body-After :
      {B : Type 0} (a : Answers) (read : List ℕ → Option B) (go : B → Session Value → Session Value)
      → ((b : B) (s : Session Value) → Keeps s (go b s))
      → (r : Result Text (List ℕ)) (s t : Session Value) → Keeps s t
      → After (Keeps s) (with_body out a read go r t)
  unfolding with_body
  with_body-After a read go h (err e) s t k = k
  with_body-After a read go h (ok body) s t k = parsed-After a go h s t k (read body)

  after_write_key :
      (o : Option (ℕ × ShmRing)) (id : ℕ) (body : List ℕ) (p : PayloadPipeline) (r : Option ShmRing)
      → encryption_enabled (after_write out.lz4 out.aead o id body p r).1 ≡ encryption_enabled p
  after_write_key none id body p r = wrap_key out.lz4 out.aead call_tool_result id body p
  after_write_key (some (offset, ring)) id body p r = refl

  send_result-Keeps :
      (a : Answers) (id : ℕ) (bits : FrameFlags) (body : List ℕ) (s : Session Value)
      → Keeps s (send_result out a id bits body s)
  unfolding send_result wrap_maybe_shm
  send_result-Keeps a id bits body s = record {
    same_acl = refl;
    same_token = refl;
    same_flag = refl;
    same_agent = refl;
    same_key = after_write_key (write_large out.lz4 out.aead body s.shm) id body s.pipeline s.shm;
  }

  send_ref-Keeps :
      (a : Answers) (id : ℕ) (key : List ℕ) (s : Session Value) → Keeps s (send_ref out a id key s)
  unfolding send_ref
  send_ref-Keeps a id key s = record {
    same_acl = refl;
    same_token = refl;
    same_flag = refl;
    same_agent = refl;
    same_key = wrap_cache_ref_key out.lz4 out.aead call_tool_result id key s.pipeline;
  }

  pub Keeps-if :
      {s : Session Value} (b : Bool) (t u : Session Value)
      → Keeps s t
      → Keeps s u
      → Keeps s (if b then t else u)
  Keeps-if true t u k l = k
  Keeps-if false t u k l = l

  -- Other fields may change.
  pub same-Keeps :
      (s t : Session Value)
      → s.shared.acl ≡ t.shared.acl
      → s.shared.token ≡ t.shared.token
      → s.authenticated ≡ t.authenticated
      → s.agent_id ≡ t.agent_id
      → s.pipeline ≡ t.pipeline
      → Keeps t s
  same-Keeps s t p q r u v = record {
    same_acl = p;
    same_token = q;
    same_flag = r;
    same_agent = u;
    same_key = ap encryption_enabled v;
  }

  hit-Keeps :
      (a : Answers) (id : ℕ) (key body : List ℕ) (s : Session Value)
      → Keeps s (hit out a id key body s)
  unfolding hit
  hit-Keeps a id key body s = Keeps-if (contains key s.delivered) _ _ (send_ref-Keeps a id key s) (
      Keeps-then (same-Keeps (deliver out a key s) s refl refl refl refl refl)
        (send_result-Keeps a id cacheable_bit body (deliver out a key s)))

  finish-Keeps :
      (a : Answers) (id : ℕ) (name : Text) (key : Option CacheKey) (r : Option CallToolResult)
      (s : Session Value)
      → Keeps s (finish out a id name key r s)
  finish-Keeps a id name (some key) (some result) s =
      let body = out.serde.write_call_result result in
      let t = deliver out a key (store out a key body s) in
      Keeps-then (same-Keeps t s refl refl refl refl refl)
        (send_result-Keeps a id cacheable_bit body t)
  finish-Keeps a id name none (some result) s = send_result-Keeps a id 0 _ s
  finish-Keeps a id name none none s = reply_error-Keeps 32601 _ id s
  finish-Keeps a id name (some key) none s = reply_error-Keeps 32601 _ id s

  execute-Keeps :
      (a : Answers) (id : ℕ) (params : CallToolParams Value) (key : Option CacheKey)
      (s : Session Value)
      → Keeps s (execute out a id params key s)
  unfolding execute
  execute-Keeps a id params key s = finish-Keeps a id params.name key _ s

  after_get-Keeps :
      (a : Answers) (id : ℕ) (params : CallToolParams Value) (key : CacheKey) (o : Option (List ℕ))
      (s : Session Value)
      → Keeps s (after_get out a id params key o s)
  after_get-Keeps a id params key (some body) s = hit-Keeps a id key body s
  after_get-Keeps a id params key none s = execute-Keeps a id params (some key) s

  after_key-Keeps :
      (a : Answers) (id : ℕ) (params : CallToolParams Value) (key : Option CacheKey)
      (s : Session Value)
      → Keeps s (after_key out a id params key s)
  after_key-Keeps a id params none s = execute-Keeps a id params none s
  after_key-Keeps a id params (some key) s =
      let (cached, cache) = ResultCache.get a.now key s.shared.cache in
      let t = record s { shared = record s.shared { cache = cache } } in
      Keeps-then (same-Keeps t s refl refl refl refl refl)
        (after_get-Keeps a id params key cached t)

  if_allowed-Keeps :
      (a : Answers) (id : ℕ) (params : CallToolParams Value) (r : Result SecurityError (Unit {0}))
      (s : Session Value)
      → Keeps s (if_allowed out a r id params s)
  if_allowed-Keeps a id params (ok tt) s = after_key-Keeps a id params (key_of out a params s) s
  if_allowed-Keeps a id params (err e) s = reply_error-Keeps 32002 _ id s

  run_tool-Keeps :
      (a : Answers) (id : ℕ) (params : CallToolParams Value) (s : Session Value)
      → Keeps s (run_tool out a id params s)
  unfolding run_tool
  run_tool-Keeps a id params s =
      Keeps-then
        (Keeps-if (wants_progress out a params.meta) _ s (reply-Keeps progress id _ s)
          (Keeps-all s))
        (if_allowed-Keeps a id params (check s.agent_id params.name s.shared.acl)
          (report_progress out a id params s))

  pub After-if :
      (s : Session Value) (b : Bool) (n m : Next Value)
      → After (Keeps s) n
      → After (Keeps s) m
      → After (Keeps s) (if b then n else m)
  After-if s true n m k l = k
  After-if s false n m k l = l

  pub handle_call-After :
      (a : Answers) (f : Frame) (s : Session Value) → After (Keeps s) (handle_call out a f s)
  unfolding handle_call
  handle_call-After a f s =
      let id = f.header.request_id in
      let (body, t) = unwrapped out a f s in
      let u = record s { cancelled = discard id s.cancelled } in
      After-if s (contains id s.cancelled) _ _
        (Keeps-then (same-Keeps u s refl refl refl refl refl) (reply_error-Keeps 32800 _ id u))
        (with_body-After a out.serde.read_call (run_tool out a id) (run_tool-Keeps a id) body s t
          (unwrapped-Keeps a f s))
