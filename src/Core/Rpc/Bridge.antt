-- ===== src/Core/Rpc/Bridge.antt =====
-- A call that goes through the bridge, and its answers.
use ohmcp.Base.Maps.{insert, lookup}
use ohmcp.Base.{◌<◌, ◌^◌, refl, false, ◌≡◌, ℕ, [], ◌∷◌, some, ok, none, Option, subst, ◌≢◌}
use ohmcp.Core.Rpc.{
  reply_object, RpcJson, method_type, payload_of, jsonrpc_to_frame, frame_to_jsonrpc,
}
use ohmcp.Base.Bytes.{Text, ascii}
use ohmcp.Base.Equality.{text_equality}
use ohmcp.Core.MsgType.{
  MsgType, error, call_tool_result, initialize, ping, list_tools, call_tool, list_resources,
  read_resource, list_prompts, get_prompt, cancel,
}
use ohmcp.Core.Frame

-- The name that the Model Context Protocol has for the method of a request; a cancellation is a
-- notification.
abbrev pub method_name : MsgType → Option Text
method_name initialize = some (ascii "initialize")
method_name ping = some (ascii "ping")
method_name list_tools = some (ascii "tools/list")
method_name call_tool = some (ascii "tools/call")
method_name list_resources = some (ascii "resources/list")
method_name read_resource = some (ascii "resources/read")
method_name list_prompts = some (ascii "prompts/list")
method_name get_prompt = some (ascii "prompts/get")
method_name cancel = some (ascii "notifications/cancelled")
method_name _ = none

-- The bridge finds the type of each name.
abbrev Finds : MsgType → Option Text → Type 0
Finds t none = Unit {0}
Finds t (some m) = method_type m ≡ some t

finds : (t : MsgType) → Finds t (method_name t)
finds initialize = refl
finds ping = refl
finds list_tools = refl
finds call_tool = refl
finds list_resources = refl
finds read_resource = refl
finds list_prompts = refl
finds get_prompt = refl
finds cancel = refl
finds _ = tt

module _ {Value : Type 0} (serde : RpcJson Value) where
  -- All requests but a ping carry their parameters.
  carries : (t : MsgType) (params : Value) → t ≢ ping → payload_of serde t params ≡ params
  carries ping params n = absurd (n refl)
  carries _ params n = refl

  -- A request, as a JSON-RPC client writes it.
  abbrev pub request_object : Text → ℕ → Value → Value
  request_object m id params = serde.object (
      (ascii "jsonrpc", serde.string (ascii "2.0"))
      ∷ (ascii "id", serde.number id)
      ∷ (ascii "method", serde.string m)
      ∷ (ascii "params", params)
      ∷ [])

  -- The bridge answers with an object that has the request's id and this body under this name.
  abbrev pub Replies : MsgType → ℕ → Value → Text → Type 0
  Replies t id body name =
      (w : Value) × (frame_to_jsonrpc serde (Frame.new t id (serde.to_vec body)) ≡ ok w)
      × (serde.member (ascii "id") w ≡ some (serde.number id))
      × (serde.member name w ≡ some body)

  result-Replies :
      (id : ℕ) (body : Value)
      → serde.from_slice (serde.to_vec body) ≡ ok body
      → Replies call_tool_result id body (ascii "result")
  unfolding frame_to_jsonrpc lookup insert Frame.new
  result-Replies id body back = (
    reply_object serde call_tool_result id body,
    rw (serde.writes_some body, back) refl,
    serde.member_object (ascii "id") _,
    serde.member_object (ascii "result") _,
  )

  error-Replies :
      (id : ℕ) (body : Value)
      → serde.from_slice (serde.to_vec body) ≡ ok body
      → Replies error id body (ascii "error")
  unfolding frame_to_jsonrpc lookup insert Frame.new
  error-Replies id body back = (
    reply_object serde error id body,
    rw (serde.writes_some body, back) refl,
    serde.member_object (ascii "id") _,
    serde.member_object (ascii "error") _,
  )

  -- A request that is no ping, by the name of its method and with parameters, becomes the frame of
  -- that method with the request's id and the parameters' text; and the result of a call, or an error,
  -- for that id becomes an answer with the same id and the same body, if that is read as it was
  -- written.
  pub jsonrpc_to_frame-frame_to_jsonrpc :
      (m : Text) (t : MsgType) (id : ℕ) (params body : Value)
      → method_name t ≡ some m
      → t ≢ ping
      → serde.is_null params ≡ false
      → id < 2 ^ 64
      → serde.from_slice (serde.to_vec body) ≡ ok body
      → (jsonrpc_to_frame serde (request_object m id params)
          ≡ ok (Frame.new t id (serde.to_vec params)))
        × Replies call_tool_result id body (ascii "result")
        × Replies error id body (ascii "error")
  unfolding jsonrpc_to_frame lookup insert
  jsonrpc_to_frame-frame_to_jsonrpc m t id params body named no_ping some_params small back =
      let known : method_type m ≡ some t = subst (Finds t) named (finds t) in
      (
        rw
            (
              serde.member_object (ascii "method") _,
              serde.reads_string m,
              serde.member_object (ascii "id") _,
              serde.reads_number id small,
              serde.member_object (ascii "params") _,
              known,
              carries t params no_ping,
              some_params,
            )
            refl,
        result-Replies id body back,
        error-Replies id body back,
      )
