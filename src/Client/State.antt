-- ===== src/Client/State.antt =====
-- crates/ohmcp-client/src/lib.rs: `OhmcpClient`, and what its methods do with it. A method is an
-- action: it takes the client to a result, or an error, and the client afterwards.
use ohmcp.Base.{ℕ, Bool, false, List, [], Option, none, some, Result, ok, err}
use ohmcp.Base.Bytes.{Text}
use ohmcp.Core.Error.{CoreError}
use ohmcp.Core.Frame.{Frame}
use ohmcp.Core.Message.{
  Implementation, InitializeResult, ListToolsResult, CallToolResult, ListResourcesResult,
  ReadResourceResult, ListPromptsResult, GetPromptResult, CancelParams, ProgressParams,
  ResourceUpdatedParams, AuthParams, AuthResult,
}
use ohmcp.Cache.Compress.{Lz4}
use ohmcp.Cache.ResultCache.{Walk}
use ohmcp.Security.Auth.{Primitives}
use ohmcp.Security.Crypto.{Aead}
use ohmcp.Transport.Shm.{ShmRing}
use ohmcp.Transport.Stream.{FrameWriter, new_writer}
use ohmcp.Pipeline.{PayloadPipeline}
use ohmcp.Pipeline

-- What the next call of `next_frame` gives: a frame, the end of the stream, an error; or nothing
-- before the time is over.
pub data Incoming : Type 0 where
  arrived : Frame → Incoming
  ended : Incoming
  broken : CoreError → Incoming
  late : Incoming

-- A call of a callback that the host registered.
pub data Notice : Type 0 where
  progressed : ProgressParams → Notice
  resource_updated : Text → Notice
  list_changed : Notice

-- `pending` holds the ids whose sender is registered, `receivers` the requests that have not given
-- up, and `mailbox` the frames that senders have sent and receivers have not taken. `progress` holds the ids that have a callback, and `notices`
-- the calls of callbacks. `incoming` is what the reader will give.
pub record OhmcpClient : Type 0 where
  pub writer : FrameWriter
  pub incoming : List Incoming
  pub pending : List ℕ
  pub receivers : List ℕ
  pub mailbox : List (ℕ × Frame)
  pub next_id : ℕ
  pub pipeline : PayloadPipeline
  pub shm : Option ShmRing
  pub shm_up : Option ShmRing
  pub progress : List ℕ
  pub on_updated : Bool
  pub on_list_changed : Bool
  pub notices : List Notice

-- A client on a fresh connection.
abbrev pub new_client : List Incoming → OhmcpClient
new_client incoming = record {
  writer = new_writer;
  incoming = incoming;
  pending = [];
  receivers = [];
  mailbox = [];
  next_id = 1;
  pipeline = Pipeline.new;
  shm = none;
  shm_up = none;
  progress = [];
  on_updated = false;
  on_list_changed = false;
  notices = [];
}

-- Why a method fails. `waiting` is the timeout of a request; where the program sets none, it is a
-- method that does not return.
pub data ClientError : Type 0 where
  core : CoreError → ClientError
  closed : ClientError
  waiting : ClientError
  no_channel : ClientError
  bad_ref : ClientError
  invalid_ref : ℕ → ℕ → ClientError
  unwrapping : Text → ClientError
  server : List ℕ → ClientError
  json : ClientError
  auth_refused : Option Text → ClientError
  io : ClientError
  panicked : ClientError

abbrev pub Action : Type 0 → Type 0
Action A = OhmcpClient → Result ClientError A × OhmcpClient

abbrev pub after :
    {A B : Type 0}
    → Result ClientError A × OhmcpClient
    → (A → Action B)
    → Result ClientError B × OhmcpClient
after (ok a, c) f = f a c
after (err e, c) f = (err e, c)

infixl 5 ◌>>=◌ ◌>>◌
abbrev pub ◌>>=◌ : {A B : Type 0} → Action A → (A → Action B) → Action B
◌>>=◌ m f c = after (m c) f

abbrev pub ◌>>◌ : {A B : Type 0} → Action A → Action B → Action B
m >> k = m >>= λ _. k

abbrev pub pure : {A : Type 0} → A → Action A
pure a c = (ok a, c)

abbrev pub fail : {A : Type 0} → ClientError → Action A
fail e c = (err e, c)

-- `o.ok_or(e)?`, and the reading of an object.
abbrev pub or_fail : {A : Type 0} → ClientError → Option A → Action A
or_fail e none c = (err e, c)
or_fail e (some a) c = (ok a, c)

abbrev pub modify : (OhmcpClient → OhmcpClient) → Action (Unit {0})
modify f c = (ok tt, f c)

-- `serde_json` for what a client reads and writes. `member` is `Value::get`.
pub record ClientSerde (Value : Type 0) : Type 0 where
  pub write_auth : AuthParams → List ℕ
  pub read_auth_result : List ℕ → Option AuthResult
  pub write_initialize : Text → Implementation → Value → List ℕ
  pub read_initialize : List ℕ → Option (InitializeResult Value)
  pub read_tools : List ℕ → Option (ListToolsResult Value)
  pub read_call_result : List ℕ → Option CallToolResult
  pub read_resources : List ℕ → Option ListResourcesResult
  pub read_contents : List ℕ → Option ReadResourceResult
  pub read_prompts : List ℕ → Option ListPromptsResult
  pub read_prompt : List ℕ → Option GetPromptResult
  pub read_progress : List ℕ → Option ProgressParams
  pub read_updated : List ℕ → Option ResourceUpdatedParams
  pub write_cancel : CancelParams → List ℕ
  pub write_text : Text → List ℕ
  pub read_value : List ℕ → Option Value
  pub to_vec : Value → List ℕ
  pub object : List (Text × Value) → Value
  pub string : Text → Value
  pub boolean : Bool → Value
  pub member : Text → Value → Option Value
  pub as_bool : Value → Option Bool
  pub as_u64 : Value → Option ℕ

-- The code outside the repository that a client uses; `digest` is SHA-256.
pub record ClientOutside (Value : Type 0) : Type 0 where
  pub serde : ClientSerde Value
  pub lz4 : Lz4
  pub aead : Aead
  pub prim : Primitives
  pub walk : Walk
  pub digest : List ℕ → List ℕ
