-- ===== src/Core/Rpc.antt =====
-- crates/ohmcp-core/src/rpc.rs: the bridge between JSON-RPC and frames.
pub mod Bridge
use ohmcp.Base.Maps.{insert, lookup}
use ohmcp.Base.{
  ◌<◌, ◌^◌, ◌++◌, List, Option, false, Bool, ◌≡◌, ℕ, Result, is_empty, if◌then◌else◌, [], ◌∷◌, none,
  some, ok, err,
}
use ohmcp.Core.Frame.{Frame}
use ohmcp.Core.Error.{CoreError, codec, json}
use ohmcp.Base.Bytes.{text_eq, Text, ascii}
use ohmcp.Core.MsgType.{
  MsgType, initialize, list_tools, call_tool, list_resources, read_resource, list_prompts,
  get_prompt, cancel, ping, error, progress, pong,
}
use ohmcp.Base.Equality.{text_equality}
use ohmcp.Core.Frame

-- What an object has when its members are put in one after the other.
abbrev pub entries : {V : Type 0} → List (Text × V) → List (Text × V) → List (Text × V)
entries done [] = done
entries done ((k, v) ∷ m) = entries (insert k v done) m

-- `serde_json` on values. `get` of a member is `member`; `object` is `json!` on an object, and a
-- member of what it makes is the last that was given under its name; a text, or a number of 64 bits,
-- that was put in is read back; and no value is written as nothing.
pub record RpcJson (Value : Type 0) : Type 0 where
  pub member : Text → Value → Option Value
  pub as_str : Value → Option Text
  pub as_u64 : Value → Option ℕ
  pub null : Value
  pub is_null : Value → Bool
  pub to_vec : Value → List ℕ
  pub from_slice : List ℕ → Result Text Value
  pub object : List (Text × Value) → Value
  pub string : Text → Value
  pub number : ℕ → Value
  pub member_object :
      (k : Text) (m : List (Text × Value)) → member k (object m) ≡ lookup k (entries [] m)
  pub reads_number : (n : ℕ) → n < 2 ^ 64 → as_u64 (number n) ≡ some n
  pub reads_string : (t : Text) → as_str (string t) ≡ some t
  pub writes_some : (v : Value) → is_empty (to_vec v) ≡ false

-- The message type of a method.
abbrev pub method_type : Text → Option MsgType
method_type m =
    if text_eq m (ascii "initialize")
    then some initialize
    else if text_eq m (ascii "tools/list")
    then some list_tools
    else if text_eq m (ascii "tools/call")
    then some call_tool
    else if text_eq m (ascii "resources/list")
    then some list_resources
    else if text_eq m (ascii "resources/read")
    then some read_resource
    else if text_eq m (ascii "prompts/list")
    then some list_prompts
    else if text_eq m (ascii "prompts/get")
    then some get_prompt
    else if text_eq m (ascii "notifications/cancelled")
    then some cancel
    else if text_eq m (ascii "ping")
    then some ping
    else none

module _ {Value : Type 0} (serde : RpcJson Value) where
  abbrev then_get : {A : Type 0} → (Value → Option A) → Option Value → Option A
  then_get f none = none
  then_get f (some v) = f v

  abbrev id_or_zero : Option ℕ → ℕ
  id_or_zero none = 0
  id_or_zero (some n) = n

  abbrev or_null : Option Value → Value
  or_null none = serde.null
  or_null (some v) = v

  -- A ping carries no parameters.
  abbrev pub payload_of : MsgType → Value → Value
  payload_of ping params = serde.null
  payload_of t params = params

  abbrev pub payload_bytes : Value → List ℕ
  payload_bytes v = if serde.is_null v then [] else serde.to_vec v

  abbrev typed_frame : Text → Option MsgType → ℕ → Value → Result CoreError Frame
  typed_frame m none id params = err (codec (ascii "unsupported method " ++ m))
  typed_frame m (some t) id params = ok (Frame.new t id (payload_bytes (payload_of t params)))

  abbrev method_frame : Option Text → ℕ → Value → Result CoreError Frame
  method_frame none id params = err (codec (ascii "missing method"))
  method_frame (some m) id params = typed_frame m (method_type m) id params

  unfoldable pub jsonrpc_to_frame : Value → Result CoreError Frame
  jsonrpc_to_frame v =
      method_frame (then_get serde.as_str (serde.member (ascii "method") v))
        (id_or_zero (then_get serde.as_u64 (serde.member (ascii "id") v)))
        (or_null (serde.member (ascii "params") v))

  abbrev version : Text × Value
  version = (ascii "jsonrpc", serde.string (ascii "2.0"))

  abbrev pub reply_object : MsgType → ℕ → Value → Value
  reply_object error id body =
      serde.object (version ∷ (ascii "id", serde.number id) ∷ (ascii "error", body) ∷ [])
  reply_object progress id body = serde.object (
      version
      ∷ (ascii "method", serde.string (ascii "notifications/progress"))
      ∷ (ascii "params", body)
      ∷ [])
  reply_object pong id body =
      serde.object
        (version ∷ (ascii "id", serde.number id) ∷ (ascii "result", serde.object []) ∷ [])
  reply_object t id body =
      serde.object (version ∷ (ascii "id", serde.number id) ∷ (ascii "result", body) ∷ [])

  abbrev body_of : List ℕ → Result Text Value
  body_of payload = if is_empty payload then ok serde.null else serde.from_slice payload

  abbrev with_reply : Frame → Result Text Value → Result CoreError Value
  with_reply f (err e) = err (json e)
  with_reply f (ok body) = ok (reply_object f.header.msg_type f.header.request_id body)

  unfoldable pub frame_to_jsonrpc : Frame → Result CoreError Value
  frame_to_jsonrpc f = with_reply f (body_of f.payload)
