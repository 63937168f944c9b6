-- ===== src/Core/Message/Read.antt =====
-- crates/ohmcp-core/src/message.rs: what `Deserialize` reads for each object, by its attributes, from
-- an object whose other members it ignores, or from an array of the fields.
use ohmcp.Base.{[], Option, some, none, false, if◌then◌else◌}
use ohmcp.Base.Bytes.{Text, ascii, text_eq}
use ohmcp.Core.Json.{
  ◌>>=◌, Json, null, array, object, and_element, struct, needed, defaulted, optional, read_text,
  read_bool, read_value, read_u64, read_i64, read_vec,
}
use ohmcp.Core.Message.{
  Implementation, CancelParams, ProgressParams, ContentBlock, text, image, CallToolResult, Resource,
  ListResourcesResult, ReadResourceParams, ResourceContents, ReadResourceResult,
  SubscribeResourceParams, ResourceUpdatedParams, PromptArgument, Prompt, ListPromptsResult,
  PromptMessage, GetPromptResult, AuthParams, AuthResult, InitializeParams, InitializeResult, Tool,
  ListToolsResult, CallToolParams, GetPromptParams, ErrorBody,
}

abbrev pub implementation : Json → Option Implementation
implementation v = do
  _ ← struct 2 v
  name ← needed 0 (ascii "name") read_text v
  version ← needed 1 (ascii "version") read_text v
  some (record { name = name; version = version })

abbrev pub initialize_params : Json → Option (InitializeParams Json)
initialize_params v = do
  _ ← struct 3 v
  protocol_version ← needed 0 (ascii "protocolVersion") read_text v
  client_info ← needed 1 (ascii "clientInfo") implementation v
  capabilities ← defaulted 2 (ascii "capabilities") read_value null v
  some (record {
    protocol_version = protocol_version;
    client_info = client_info;
    capabilities = capabilities;
  })

abbrev pub initialize_result : Json → Option (InitializeResult Json)
initialize_result v = do
  _ ← struct 3 v
  protocol_version ← needed 0 (ascii "protocolVersion") read_text v
  server_info ← needed 1 (ascii "serverInfo") implementation v
  capabilities ← defaulted 2 (ascii "capabilities") read_value null v
  some (record {
    protocol_version = protocol_version;
    server_info = server_info;
    capabilities = capabilities;
  })

abbrev pub tool : Json → Option (Tool Json)
tool v = do
  _ ← struct 3 v
  name ← needed 0 (ascii "name") read_text v
  description ← optional 1 (ascii "description") read_text v
  input_schema ← needed 2 (ascii "inputSchema") read_value v
  some (record { name = name; description = description; input_schema = input_schema })

abbrev pub list_tools_result : Json → Option (ListToolsResult Json)
list_tools_result v = do
  _ ← struct 1 v
  tools ← needed 0 (ascii "tools") (read_vec tool) v
  some (record { tools = tools })

abbrev pub call_tool_params : Json → Option (CallToolParams Json)
call_tool_params v = do
  _ ← struct 3 v
  name ← needed 0 (ascii "name") read_text v
  arguments ← defaulted 1 (ascii "arguments") read_value null v
  meta ← optional 2 (ascii "_meta") read_value v
  some (record { name = name; arguments = arguments; meta = meta })

abbrev pub cancel_params : Json → Option CancelParams
cancel_params v = do
  _ ← struct 2 v
  request_id ← needed 0 (ascii "requestId") read_u64 v
  reason ← optional 1 (ascii "reason") read_text v
  some (record { request_id = request_id; reason = reason })

abbrev pub progress_params : Json → Option ProgressParams
progress_params v = do
  _ ← struct 4 v
  request_id ← needed 0 (ascii "requestId") read_u64 v
  progress ← needed 1 (ascii "progress") read_u64 v
  total ← optional 2 (ascii "total") read_u64 v
  message ← optional 3 (ascii "message") read_text v
  some (record { request_id = request_id; progress = progress; total = total; message = message })

abbrev text_block : Json → Option ContentBlock
text_block v = do _ ← struct 1 v; t ← needed 0 (ascii "text") read_text v; some (text t)

abbrev image_block : Json → Option ContentBlock
image_block v = do
  _ ← struct 2 v
  data_text ← needed 0 (ascii "data") read_text v
  mime ← needed 1 (ascii "mimeType") read_text v
  some (image data_text mime)

abbrev variant : Text → Json → Option ContentBlock
variant t v =
    if text_eq t (ascii "text")
    then text_block v
    else (if text_eq t (ascii "image") then image_block v else none)

-- The name of the variant is the member `type` of an object, or the first element of an array, and
-- the other members or elements are the variant's fields.
abbrev pub content_block : Json → Option ContentBlock
content_block (object m) =
    needed 0 (ascii "type") read_text (object m) >>= λ t. variant t (object m)
content_block (array (and_element v a)) = read_text v >>= λ t. variant t (array a)
content_block _ = none

abbrev pub call_tool_result : Json → Option CallToolResult
call_tool_result v = do
  _ ← struct 2 v
  content ← needed 0 (ascii "content") (read_vec content_block) v
  is_error ← defaulted 1 (ascii "isError") read_bool false v
  some (record { content = content; is_error = is_error })

abbrev pub resource : Json → Option Resource
resource v = do
  _ ← struct 4 v
  uri ← needed 0 (ascii "uri") read_text v
  name ← needed 1 (ascii "name") read_text v
  description ← optional 2 (ascii "description") read_text v
  mime_type ← optional 3 (ascii "mimeType") read_text v
  some (record { uri = uri; name = name; description = description; mime_type = mime_type })

abbrev pub list_resources_result : Json → Option ListResourcesResult
list_resources_result v = do
  _ ← struct 1 v
  resources ← needed 0 (ascii "resources") (read_vec resource) v
  some (record { resources = resources })

abbrev pub read_resource_params : Json → Option ReadResourceParams
read_resource_params v = do
  _ ← struct 1 v
  uri ← needed 0 (ascii "uri") read_text v
  some (record { uri = uri })

abbrev pub resource_contents : Json → Option ResourceContents
resource_contents v = do
  _ ← struct 4 v
  uri ← needed 0 (ascii "uri") read_text v
  mime_type ← optional 1 (ascii "mimeType") read_text v
  body ← optional 2 (ascii "text") read_text v
  blob ← optional 3 (ascii "blob") read_text v
  some (record { uri = uri; mime_type = mime_type; text = body; blob = blob })

abbrev pub read_resource_result : Json → Option ReadResourceResult
read_resource_result v = do
  _ ← struct 1 v
  contents ← needed 0 (ascii "contents") (read_vec resource_contents) v
  some (record { contents = contents })

abbrev pub subscribe_resource_params : Json → Option SubscribeResourceParams
subscribe_resource_params v = do
  _ ← struct 1 v
  uri ← needed 0 (ascii "uri") read_text v
  some (record { uri = uri })

abbrev pub resource_updated_params : Json → Option ResourceUpdatedParams
resource_updated_params v = do
  _ ← struct 1 v
  uri ← needed 0 (ascii "uri") read_text v
  some (record { uri = uri })

abbrev pub prompt_argument : Json → Option PromptArgument
prompt_argument v = do
  _ ← struct 3 v
  name ← needed 0 (ascii "name") read_text v
  description ← optional 1 (ascii "description") read_text v
  required ← defaulted 2 (ascii "required") read_bool false v
  some (record { name = name; description = description; required = required })

abbrev pub prompt : Json → Option Prompt
prompt v = do
  _ ← struct 3 v
  name ← needed 0 (ascii "name") read_text v
  description ← optional 1 (ascii "description") read_text v
  arguments ← defaulted 2 (ascii "arguments") (read_vec prompt_argument) [] v
  some (record { name = name; description = description; arguments = arguments })

abbrev pub list_prompts_result : Json → Option ListPromptsResult
list_prompts_result v = do
  _ ← struct 1 v
  prompts ← needed 0 (ascii "prompts") (read_vec prompt) v
  some (record { prompts = prompts })

abbrev pub get_prompt_params : Json → Option (GetPromptParams Json)
get_prompt_params v = do
  _ ← struct 2 v
  name ← needed 0 (ascii "name") read_text v
  arguments ← defaulted 1 (ascii "arguments") read_value null v
  some (record { name = name; arguments = arguments })

abbrev pub prompt_message : Json → Option PromptMessage
prompt_message v = do
  _ ← struct 2 v
  role ← needed 0 (ascii "role") read_text v
  content ← needed 1 (ascii "content") content_block v
  some (record { role = role; content = content })

abbrev pub get_prompt_result : Json → Option GetPromptResult
get_prompt_result v = do
  _ ← struct 2 v
  description ← optional 0 (ascii "description") read_text v
  messages ← needed 1 (ascii "messages") (read_vec prompt_message) v
  some (record { description = description; messages = messages })

abbrev pub error_body : Json → Option (ErrorBody Json)
error_body v = do
  _ ← struct 3 v
  code ← needed 0 (ascii "code") read_i64 v
  message ← needed 1 (ascii "message") read_text v
  details ← optional 2 (ascii "data") read_value v
  some (record { code = code; message = message; details = details })

abbrev pub auth_params : Json → Option AuthParams
auth_params v = do
  _ ← struct 4 v
  agent_id ← needed 0 (ascii "agent_id") read_text v
  token ← needed 1 (ascii "token") read_text v
  nonce ← optional 2 (ascii "nonce") read_text v
  eph_pub ← optional 3 (ascii "eph_pub") read_text v
  some (record { agent_id = agent_id; token = token; nonce = nonce; eph_pub = eph_pub })

abbrev pub auth_result : Json → Option AuthResult
auth_result v = do
  _ ← struct 4 v
  is_ok ← needed 0 (ascii "ok") read_bool v
  session_key_b64 ← optional 1 (ascii "session_key_b64") read_text v
  reason ← optional 2 (ascii "reason") read_text v
  eph_pub ← optional 3 (ascii "eph_pub") read_text v
  some (record {
    is_ok = is_ok;
    session_key_b64 = session_key_b64;
    reason = reason;
    eph_pub = eph_pub;
  })
