-- ===== src/Server/Calls.antt =====
-- crates/ohmcpd/src/server.rs: `CallTool`, and `wrap_maybe_shm`.
use Prim.Native.Nat.{bit_or}
use ohmcp.Base.{
  ℕ, ◌%◌, ◌^◌, Bool, false, ◌++◌, List, Result, ok, err, Option, none, some, length, leb,
  if◌then◌else◌,
}
use ohmcp.Base.Bytes.{Text, ascii}
use ohmcp.Base.Maps.{contains, add, discard}
use ohmcp.Base.Equality.{text_equality, nat_eq}
use ohmcp.Core.Message.{CallToolParams, CallToolResult}
use ohmcp.Core.MsgType.{call_tool_result, progress}
use ohmcp.Core.Frame.{Frame, FrameFlags, cacheable_bit, shm_ref_bit}
use ohmcp.Cache.Compress.{Lz4}
use ohmcp.Cache.ResultCache.{CacheKey, compute}
use ohmcp.Security.{SecurityError}
use ohmcp.Security.Acl.{check}
use ohmcp.Security.Crypto.{Aead}
use ohmcp.Transport.Shm.{ShmRing, shm_threshold, try_write, encode_shm_ref}
use ohmcp.Pipeline.{PayloadPipeline, wrap, wrap_cache_ref}
use ohmcp.Server.Tools.{is_cacheable, call}
use ohmcp.Server.Handlers.{with_body, unwrapped}
use ohmcp.Server.Session.{Outside, Session, Answers, Next, goes_on, queued, reply, reply_error}
use ohmcp.Cache.ResultCache
use ohmcp.Core.Frame

-- `f.header.flags.0 |= bits`
abbrev pub set_flags : FrameFlags → Frame → Frame
set_flags bits f = record f { header = record f.header { flags = bit_or f.header.flags bits } }

abbrev pub shm_frame : ℕ → ℕ → List ℕ → Frame
shm_frame id offset payload =
    set_flags shm_ref_bit
      (Frame.new call_tool_result id (encode_shm_ref offset (length payload % 2 ^ 32)))

module _ (lz4 : Lz4) (aead : Aead) where
  -- A large payload goes through the ring, if there is one with room; any other into the frame.
  abbrev pub after_write :
      Option (ℕ × ShmRing)
      → ℕ
      → List ℕ
      → PayloadPipeline
      → Option ShmRing
      → Frame × PayloadPipeline × Option ShmRing
  after_write (some (offset, ring)) id payload p shm = (shm_frame id offset payload, p, some ring)
  after_write none id payload p shm =
      let (f, p') = wrap lz4 aead call_tool_result id payload p in (f, p', shm)

  abbrev pub write_large : List ℕ → Option ShmRing → Option (ℕ × ShmRing)
  write_large payload none = none
  write_large payload (some ring) =
      if leb shm_threshold (length payload) then try_write payload ring else none

  unfoldable pub wrap_maybe_shm :
      PayloadPipeline → Option ShmRing → ℕ → List ℕ → Frame × PayloadPipeline × Option ShmRing
  wrap_maybe_shm p shm id payload = after_write (write_large payload shm) id payload p shm

module _ {Value : Type 0} (out : Outside Value) (a : Answers) where
  -- The result goes out, with the flag CACHEABLE if there is a key for it.
  unfoldable pub send_result : ℕ → FrameFlags → List ℕ → Session Value → Session Value
  unfolding wrap_maybe_shm
  send_result id bits body s =
      let (f, p, ring) = wrap_maybe_shm out.lz4 out.aead s.pipeline s.shm id body in
      queued (set_flags bits f) (record s { pipeline = p; shm = ring })

  unfoldable pub send_ref : ℕ → CacheKey → Session Value → Session Value
  send_ref id key s =
      let (f, p) = wrap_cache_ref out.lz4 out.aead call_tool_result id key s.pipeline in
      queued f (record s { pipeline = p })

  abbrev pub deliver : CacheKey → Session Value → Session Value
  deliver key s = record s { delivered = add key s.delivered }

  -- The client that had the whole result before gets its key.
  unfoldable pub hit : ℕ → CacheKey → List ℕ → Session Value → Session Value
  unfolding send_ref send_result
  hit id key body s =
      if contains key s.delivered
      then send_ref id key s
      else send_result id cacheable_bit body (deliver key s)

  abbrev pub store : CacheKey → List ℕ → Session Value → Session Value
  store key body s = record s {
    shared = record s.shared { cache = ResultCache.put out.walk a.now key body s.shared.cache };
  }

  abbrev pub finish :
      ℕ → Text → Option CacheKey → Option CallToolResult → Session Value → Session Value
  finish id name (some key) (some result) s =
      let body = out.serde.write_call_result result in
      send_result id cacheable_bit body (deliver key (store key body s))
  finish id name none (some result) s = send_result id 0 (out.serde.write_call_result result) s
  finish id name key none s = reply_error out 32601 (ascii "unknown tool: " ++ name) id s

  -- The tool runs.
  unfoldable pub execute :
      ℕ → CallToolParams Value → Option CacheKey → Session Value → Session Value
  execute id params key s =
      finish id params.name key (call params.name params.arguments s.shared.registry) s

  abbrev pub after_get :
      ℕ → CallToolParams Value → CacheKey → Option (List ℕ) → Session Value → Session Value
  after_get id params key (some body) s = hit id key body s
  after_get id params key none s = execute id params (some key) s

  abbrev pub after_key : ℕ → CallToolParams Value → Option CacheKey → Session Value → Session Value
  after_key id params none s = execute id params none s
  after_key id params (some key) s =
      let (cached, cache) = ResultCache.get a.now key s.shared.cache in
      after_get id params key cached (record s { shared = record s.shared { cache = cache } })

  abbrev pub key_of : CallToolParams Value → Session Value → Option CacheKey
  key_of params s =
      if is_cacheable params.name s.shared.registry
      then some (compute out.digest params.name (out.serde.to_vec params.arguments))
      else none

  -- `params.meta` asks for progress.
  abbrev is_true : Option Bool → Bool
  is_true none = false
  is_true (some b) = b

  abbrev wants_member : Option Value → Bool
  wants_member none = false
  wants_member (some v) = is_true (out.serde.as_bool v)

  abbrev pub wants_progress : Option Value → Bool
  wants_progress none = false
  wants_progress (some meta) = wants_member (out.serde.member (ascii "progress") meta)

  abbrev pub report_progress : ℕ → CallToolParams Value → Session Value → Session Value
  report_progress id params s =
      if wants_progress params.meta
      then reply out progress id
          (out.serde.write_progress (record {
            request_id = id;
            progress = 0;
            total = some 1;
            message = some (ascii "executing " ++ params.name);
          }))
          s
      else s

  abbrev pub if_allowed :
      Result SecurityError (Unit {0}) → ℕ → CallToolParams Value → Session Value → Session Value
  if_allowed (ok tt) id params s = after_key id params (key_of params s) s
  if_allowed (err e) id params s =
      reply_error out 32002 (ascii "access denied: " ++ params.name) id s

  unfoldable pub run_tool : ℕ → CallToolParams Value → Session Value → Session Value
  run_tool id params s =
      let s' = report_progress id params s in
      if_allowed (check s.agent_id params.name s.shared.acl) id params s'

  unfoldable pub handle_call : Frame → Session Value → Next Value
  unfolding with_body run_tool
  handle_call f s =
      let (body, s') = unwrapped out a f s in
      if contains f.header.request_id s.cancelled
      then goes_on (
          reply_error out 32800 (ascii "request cancelled") f.header.request_id
            (record s { cancelled = discard f.header.request_id s.cancelled }))
      else with_body out a out.serde.read_call (run_tool f.header.request_id) body s'
