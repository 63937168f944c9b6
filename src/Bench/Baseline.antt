-- ===== src/Bench/Baseline.antt =====
-- crates/ohmcp-bench/src/baseline.rs: a server and a client that exchange lines of JSON-RPC. A
-- stream is the list of the lines that come before it ends, without the line breaks.
use ohmcp.Base.{◌+◌, ◌++◌, ℕ, Bool, if◌then◌else◌, List, [], ◌∷◌, Option, none, some, length}
use ohmcp.Base.Bytes.{Text, ascii, text_eq}
use ohmcp.Base.Equality.{nat_eq}
use ohmcp.Base.Integers.{pos, minus}
use ohmcp.Base.Maps.{add, contains, discard, insert, lookup, remove}
use ohmcp.Base.Words.{add_u64}
use ohmcp.Core.Json.{
  Json, null, number, string, array, elements, get, json_object, read_text, read_u64, ◌>>=◌,
  to_value,
}
use ohmcp.Core.Message.{CallToolResult}
use ohmcp.Server.Tools.{ToolRegistry, call}
use ohmcp.Exchange.Codec.{Codec}
use ohmcp.Core.Message.Write

abbrev pub or_else : {A : Type 0} → A → Option A → A
or_else a none = a
or_else a (some b) = b

abbrev pub member_or_null : Text → Json → Json
member_or_null k v = or_else null (get k v)

abbrev pub text_of : Text → Json → Text
text_of k v = or_else [] (get k v >>= read_text)

abbrev jsonrpc : Text × Json
jsonrpc = (ascii "jsonrpc", string (ascii "2.0"))

abbrev no_members : Json
no_members = json_object []

abbrev pub result_response : Json → Json → Json
result_response id result = json_object (jsonrpc ∷ (ascii "id", id) ∷ (ascii "result", result) ∷ [])

abbrev pub unknown_tool : Json
unknown_tool =
    json_object
      ((ascii "code", number (minus 32601)) ∷ (ascii "message", string (ascii "unknown tool")) ∷ [])

abbrev pub error_response : Json → Json
error_response id = json_object (jsonrpc ∷ (ascii "id", id) ∷ (ascii "error", unknown_tool) ∷ [])

abbrev initialize_body : Json
initialize_body = json_object (
    (ascii "protocolVersion", string (ascii "2025-06-18"))
    ∷ (
      ascii "serverInfo",
      json_object (
          (ascii "name", string (ascii "baseline"))
          ∷ (ascii "version", string (ascii "0.1.0"))
          ∷ []),
    )
    ∷ (ascii "capabilities", json_object ((ascii "tools", no_members) ∷ []))
    ∷ [])

abbrev pub call_response : Json → Option CallToolResult → Json
call_response id none = error_response id
call_response id (some r) = result_response id (to_value (Write.call_tool_result r))

abbrev call_method : ToolRegistry Json → Json → Json → Json
call_method registry id req =
    let params = member_or_null (ascii "params") req in
    call_response id
      (call (text_of (ascii "name") params) (member_or_null (ascii "arguments") params) registry)

-- The response to a request of the connection.
unfoldable pub respond : ToolRegistry Json → Json → Json
respond registry req =
    let id = member_or_null (ascii "id") req in
    let method = text_of (ascii "method") req in
    if text_eq method (ascii "initialize")
    then result_response id initialize_body
    else if text_eq method (ascii "tools/list")
    then result_response id (
        json_object
          ((ascii "tools", array (elements (λ t. to_value (Write.tool t)) registry.tools)) ∷ []))
    else if text_eq method (ascii "tools/call")
    then call_method registry id req
    else result_response id no_members

abbrev line_break : List ℕ
line_break = ascii "\n"

-- What the client waits for: the result, or an error, or nothing that ever comes.
pub data Awaited : Type 0 where
  returned : Json → Awaited
  server_error : Json → Awaited
  write_error : Awaited
  hangs : Awaited

-- `pending` has the ids whose responses are waited for, and `mailbox` the responses in their
-- channels; `written` is what went to the stream, and `incoming` what the stream has still to give.
pub record BaselineClient : Type 0 where
  pub pending : List ℕ
  pub mailbox : List (ℕ × Json)
  pub next_id : ℕ
  pub bytes_sent : ℕ
  pub bytes_recv : ℕ
  pub written : List ℕ
  pub incoming : List (List ℕ)

abbrev pub outcome_of : Json → Option Json → Awaited
outcome_of resp none = returned (member_or_null (ascii "result") resp)
outcome_of resp (some null) = returned (member_or_null (ascii "result") resp)
outcome_of resp (some e) = server_error e

abbrev pub request_tree : ℕ → Text → Json → Json
request_tree id method params = json_object (
    jsonrpc
    ∷ (ascii "id", number (pos id))
    ∷ (ascii "method", string method)
    ∷ (ascii "params", params)
    ∷ [])

abbrev pub call_params : Text → Json → Json
call_params name arguments =
    json_object ((ascii "name", string name) ∷ (ascii "arguments", arguments) ∷ [])

abbrev pub new_client : List (List ℕ) → BaselineClient
new_client incoming = record {
  pending = [];
  mailbox = [];
  next_id = 1;
  bytes_sent = 0;
  bytes_recv = 0;
  written = [];
  incoming = incoming;
}

module _ (codec : Codec) where
  -- `from_str` into a `Value`.
  abbrev pub read_line : List ℕ → Option Json
  read_line line = codec.parse line >>= λ v. some (to_value v)

  abbrev respond_to : ToolRegistry Json → Option Json → Option (List ℕ)
  respond_to registry none = none
  respond_to registry (some req) = some (codec.print (respond registry req) ++ line_break)

  abbrev then_lines : Option (List ℕ) → List ℕ → List ℕ
  then_lines none rest = []
  then_lines (some out) rest = out ++ rest

  -- What a connection writes for these lines, if its writes succeed: a line that is no JSON ends it.
  unfoldable pub handle : ToolRegistry Json → List (List ℕ) → List ℕ
  handle registry [] = []
  handle registry (line ∷ lines) =
      then_lines (respond_to registry (read_line line)) (handle registry lines)

  abbrev pub deliver : ℕ → Json → BaselineClient → BaselineClient
  deliver id resp c =
      if contains id c.pending
      then record c { pending = discard id c.pending; mailbox = insert id resp c.mailbox }
      else c

  abbrev pub counted : List ℕ → BaselineClient → BaselineClient
  counted line c = record c { bytes_recv = add_u64 c.bytes_recv (length line + 1) }

  abbrev pub after_line :
      Option Json → (BaselineClient → BaselineClient) → BaselineClient → BaselineClient
  after_line none more c = c
  after_line (some resp) more c =
      more (deliver (or_else 0 (get (ascii "id") resp >>= read_u64)) resp c)

  -- The task that reads: a line that is no JSON ends it, and its id is 0 if it has none.
  unfoldable pub read_lines : List (List ℕ) → BaselineClient → BaselineClient
  read_lines [] c = c
  read_lines (line ∷ lines) c = after_line (read_line line) (read_lines lines) (counted line c)

  abbrev pub taken : ℕ → Option Json → BaselineClient → Awaited × BaselineClient
  taken id none c = (hangs, c)
  taken id (some resp) c =
      (outcome_of resp (get (ascii "error") resp), record c { mailbox = remove id c.mailbox })

  -- The channel of a request, after the task has read what comes. While the client is there the
  -- sender of the channel stays in `pending`, so that the channel does not close.
  unfoldable pub receive : ℕ → BaselineClient → Awaited × BaselineClient
  unfolding read_lines
  receive id c =
      let c' = read_lines c.incoming (record c { incoming = [] }) in
      taken id (lookup id c'.mailbox) c'

  -- `writes` says whether the stream takes the line.
  unfoldable pub request : Bool → Text → Json → BaselineClient → Awaited × BaselineClient
  unfolding receive
  request writes method params c =
      let id = c.next_id in
      let line = codec.print (request_tree id method params) ++ line_break in
      let c' = record c {
        next_id = add_u64 id 1;
        bytes_sent = add_u64 c.bytes_sent (length line);
        pending = add id c.pending;
      } in
      if writes then receive id (record c' { written = c'.written ++ line }) else (write_error, c')

  unfoldable pub call_tool : Bool → Text → Json → BaselineClient → Awaited × BaselineClient
  unfolding request
  call_tool writes name arguments = request writes (ascii "tools/call") (call_params name arguments)

  -- The client on a stream, after its request to initialize.
  unfoldable pub connect : Bool → List (List ℕ) → Awaited × BaselineClient
  unfolding request
  connect writes incoming =
      request writes (ascii "initialize")
        (json_object (
          (ascii "protocolVersion", string (ascii "2025-06-18"))
          ∷ (
            ascii "clientInfo",
            json_object (
                (ascii "name", string (ascii "bench"))
                ∷ (ascii "version", string (ascii "0"))
                ∷ []),
          )
          ∷ (ascii "capabilities", no_members)
          ∷ []))
        (new_client incoming)
