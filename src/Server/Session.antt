-- ===== src/Server/Session.antt =====
-- crates/ohmcpd/src/server.rs: the state of a session of `handle_conn`, and its replies.
-- `serde_json` is a parameter. A session ends in one of the ways of `Next`.
use ohmcp.Base.{ℕ, Bool, true, not, List, [], Option, none, some}
use ohmcp.Base.Bytes.{Text, ascii}
use ohmcp.Base.Integers.{minus}
use ohmcp.Core.Message.{
  InitializeResult, ListToolsResult, CallToolParams, CancelParams, ProgressParams, CallToolResult,
  ListResourcesResult, ReadResourceParams, ReadResourceResult, SubscribeResourceParams,
  ResourceUpdatedParams, ListPromptsResult, GetPromptParams, GetPromptResult, ErrorBody, AuthParams,
  AuthResult,
}
use ohmcp.Core.MsgType.{MsgType, error}
use ohmcp.Core.Frame.{Frame}
use ohmcp.Cache.Compress.{Lz4}
use ohmcp.Cache.ResultCache.{ResultCache, CacheKey, Walk}
use ohmcp.Security.Acl.{ToolAcl, grant_all}
use ohmcp.Security.Auth.{Primitives}
use ohmcp.Security.Crypto.{Aead}
use ohmcp.Transport.Shm.{ShmRing, Calls}
use ohmcp.Transport.Stream.{FrameWriter, Write, queue, new_writer}
use ohmcp.Pipeline.{PayloadPipeline, wrap, cache_ttl}
use ohmcp.Server.Tools.{ToolRegistry}
use ohmcp.Cache.ResultCache
use ohmcp.Pipeline
use ohmcp.Security.Acl

-- `serde_json`: how each object is read, and the text that is written for it. Writing these objects
-- does not fail. `object` is the macro `json!` on an object.
pub record Serde (Value : Type 0) : Type 0 where
  pub read_auth : List ℕ → Option AuthParams
  pub read_resource_params : List ℕ → Option ReadResourceParams
  pub read_prompt_params : List ℕ → Option (GetPromptParams Value)
  pub read_subscribe : List ℕ → Option SubscribeResourceParams
  pub read_cancel : List ℕ → Option CancelParams
  pub read_call : List ℕ → Option (CallToolParams Value)
  pub write_auth_result : AuthResult → List ℕ
  pub write_error : ErrorBody Value → List ℕ
  pub write_initialize : InitializeResult Value → List ℕ
  pub write_tools : ListToolsResult Value → List ℕ
  pub write_resources : ListResourcesResult → List ℕ
  pub write_contents : ReadResourceResult → List ℕ
  pub write_prompts : ListPromptsResult → List ℕ
  pub write_prompt : GetPromptResult → List ℕ
  pub write_updated : ResourceUpdatedParams → List ℕ
  pub write_progress : ProgressParams → List ℕ
  pub write_call_result : CallToolResult → List ℕ
  pub to_vec : Value → List ℕ
  pub object : List (Text × Value) → Value
  pub boolean : Bool → Value
  pub number : ℕ → Value
  pub member : Text → Value → Option Value
  pub as_bool : Value → Option Bool

-- The code outside the repository that a session uses; `digest` is SHA-256.
pub record Outside (Value : Type 0) : Type 0 where
  pub serde : Serde Value
  pub lz4 : Lz4
  pub aead : Aead
  pub prim : Primitives
  pub walk : Walk
  pub digest : List ℕ → List ℕ

-- What all sessions share; the locks are held only inside each operation.
pub record Shared (Value : Type 0) : Type 0 where
  pub registry : ToolRegistry Value
  pub cache : ResultCache
  pub acl : ToolAcl
  pub token : Option (List ℕ)

pub record Session (Value : Type 0) : Type 0 where
  pub shared : Shared Value
  pub writer : FrameWriter
  pub pipeline : PayloadPipeline
  pub authenticated : Bool
  pub agent_id : Text
  pub delivered : List CacheKey
  pub shm : Option ShmRing
  pub shm_up : Option ShmRing
  pub cancelled : List ℕ
  pub subscribed : List Text

-- What the outside answers while one frame is handled: the clock, the random generator, and the
-- system calls.
pub record Answers : Type 0 where
  pub now : ℕ
  pub secret : List ℕ
  pub nonce_prefix : List ℕ
  pub down : Calls
  pub up : Calls
  pub dup : Bool
  pub first_send : Bool
  pub second_send : Bool
  pub joined : Bool
  pub write : Write

-- The loop goes on; or `handle_conn` returns, fails with an error, or panics.
pub data Next (Value : Type 0) : Type 0 where
  goes_on : Session Value → Next Value
  returned : Session Value → Next Value
  failed : Session Value → Next Value
  panicked : Session Value → Next Value

abbrev pub is_none : Option (List ℕ) → Bool
is_none o = elim o [ none ↦ true | some t ↦ not true ]

module _ {Value : Type 0} where
  -- `run_with` before it listens: nobody but the anonymous agent may call a tool.
  abbrev pub shared_at_start : ToolRegistry Value → Option (List ℕ) → Shared Value
  shared_at_start registry token = record {
    registry = registry;
    cache = ResultCache.new 65536 cache_ttl;
    acl = grant_all (ascii "anonymous") Acl.new;
    token = token;
  }

  abbrev pub session_at_start : Shared Value → Session Value
  session_at_start shared = record {
    shared = shared;
    writer = new_writer;
    pipeline = Pipeline.new;
    authenticated = is_none shared.token;
    agent_id = ascii "anonymous";
    delivered = [];
    shm = none;
    shm_up = none;
    cancelled = [];
    subscribed = [];
  }

  abbrev pub queued : Frame → Session Value → Session Value
  queued f s = record s { writer = queue f s.writer }

  module _ (out : Outside Value) where
    -- A payload is wrapped, and the frame is queued.
    unfoldable pub reply : MsgType → ℕ → List ℕ → Session Value → Session Value
    reply t id body s =
        let (f, p) = wrap out.lz4 out.aead t id body s.pipeline in
        queued f (record s { pipeline = p })

    unfoldable pub reply_error : ℕ → Text → ℕ → Session Value → Session Value
    unfolding reply
    reply_error code message id s =
        reply error id
          (out.serde.write_error (record { code = minus code; message = message; details = none }))
          s
