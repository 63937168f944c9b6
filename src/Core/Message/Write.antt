-- ===== src/Core/Message/Write.antt =====
-- crates/ohmcp-core/src/message.rs: what `Serialize` writes for each object, by its attributes: the
-- members in the order of the fields.
use ohmcp.Base.{ℕ, List}
use ohmcp.Base.Bytes.{Text, ascii}
use ohmcp.Base.Integers.{pos}
use ohmcp.Core.Json.{
  Json, no_member, and_member, boolean, number, string, array, object, elements, unless_none,
  unless_empty, kept,
}
use ohmcp.Core.Message.{
  Implementation, CancelParams, ProgressParams, ContentBlock, text, image, CallToolResult, Resource,
  ListResourcesResult, ReadResourceParams, ResourceContents, ReadResourceResult,
  SubscribeResourceParams, ResourceUpdatedParams, PromptArgument, Prompt, ListPromptsResult,
  PromptMessage, GetPromptResult, AuthParams, AuthResult, InitializeParams, InitializeResult, Tool,
  ListToolsResult, CallToolParams, GetPromptParams, ErrorBody,
}

abbrev u64 : ℕ → Json
u64 n = number (pos n)

abbrev vec : {A : Type 0} → (A → Json) → List A → Json
vec write l = array (elements write l)

abbrev only_uri : Text → Json
only_uri uri = object (and_member (ascii "uri") (string uri) no_member)

abbrev pub implementation : Implementation → Json
implementation p = object (
    and_member (ascii "name") (string p.name)
      (and_member (ascii "version") (string p.version) no_member))

abbrev pub initialize_params : InitializeParams Json → Json
initialize_params p = object (
    and_member (ascii "protocolVersion") (string p.protocol_version) (
      and_member (ascii "clientInfo") (implementation p.client_info)
        (and_member (ascii "capabilities") p.capabilities no_member)))

abbrev pub initialize_result : InitializeResult Json → Json
initialize_result p = object (
    and_member (ascii "protocolVersion") (string p.protocol_version) (
      and_member (ascii "serverInfo") (implementation p.server_info)
        (and_member (ascii "capabilities") p.capabilities no_member)))

abbrev pub tool : Tool Json → Json
tool p = object (
    and_member (ascii "name") (string p.name) (
      unless_none (ascii "description") string p.description
        (and_member (ascii "inputSchema") p.input_schema no_member)))

abbrev pub list_tools_result : ListToolsResult Json → Json
list_tools_result p = object (and_member (ascii "tools") (vec tool p.tools) no_member)

abbrev pub call_tool_params : CallToolParams Json → Json
call_tool_params p = object (
    and_member (ascii "name") (string p.name) (
      and_member (ascii "arguments") p.arguments
        (unless_none (ascii "_meta") kept p.meta no_member)))

abbrev pub cancel_params : CancelParams → Json
cancel_params p = object (
    and_member (ascii "requestId") (u64 p.request_id)
      (unless_none (ascii "reason") string p.reason no_member))

abbrev pub progress_params : ProgressParams → Json
progress_params p = object (
    and_member (ascii "requestId") (u64 p.request_id) (
      and_member (ascii "progress") (u64 p.progress) (
        unless_none (ascii "total") u64 p.total
          (unless_none (ascii "message") string p.message no_member))))

-- The name of the variant is the member `type`.
abbrev pub content_block : ContentBlock → Json
content_block (text t) = object (
    and_member (ascii "type") (string (ascii "text"))
      (and_member (ascii "text") (string t) no_member))
content_block (image data_text mime) = object (
    and_member (ascii "type") (string (ascii "image")) (
      and_member (ascii "data") (string data_text)
        (and_member (ascii "mimeType") (string mime) no_member)))

abbrev pub call_tool_result : CallToolResult → Json
call_tool_result p = object (
    and_member (ascii "content") (vec content_block p.content)
      (and_member (ascii "isError") (boolean p.is_error) no_member))

abbrev pub resource : Resource → Json
resource p = object (
    and_member (ascii "uri") (string p.uri) (
      and_member (ascii "name") (string p.name) (
        unless_none (ascii "description") string p.description
          (unless_none (ascii "mimeType") string p.mime_type no_member))))

abbrev pub list_resources_result : ListResourcesResult → Json
list_resources_result p =
    object (and_member (ascii "resources") (vec resource p.resources) no_member)

abbrev pub read_resource_params : ReadResourceParams → Json
read_resource_params p = only_uri p.uri

abbrev pub resource_contents : ResourceContents → Json
resource_contents p = object (
    and_member (ascii "uri") (string p.uri) (
      unless_none (ascii "mimeType") string p.mime_type (
        unless_none (ascii "text") string p.text
          (unless_none (ascii "blob") string p.blob no_member))))

abbrev pub read_resource_result : ReadResourceResult → Json
read_resource_result p =
    object (and_member (ascii "contents") (vec resource_contents p.contents) no_member)

abbrev pub subscribe_resource_params : SubscribeResourceParams → Json
subscribe_resource_params p = only_uri p.uri

abbrev pub resource_updated_params : ResourceUpdatedParams → Json
resource_updated_params p = only_uri p.uri

abbrev pub prompt_argument : PromptArgument → Json
prompt_argument p = object (
    and_member (ascii "name") (string p.name) (
      unless_none (ascii "description") string p.description
        (and_member (ascii "required") (boolean p.required) no_member)))

abbrev pub prompt : Prompt → Json
prompt p = object (
    and_member (ascii "name") (string p.name) (
      unless_none (ascii "description") string p.description
        (unless_empty (ascii "arguments") prompt_argument p.arguments no_member)))

abbrev pub list_prompts_result : ListPromptsResult → Json
list_prompts_result p = object (and_member (ascii "prompts") (vec prompt p.prompts) no_member)

abbrev pub get_prompt_params : GetPromptParams Json → Json
get_prompt_params p = object (
    and_member (ascii "name") (string p.name)
      (and_member (ascii "arguments") p.arguments no_member))

abbrev pub prompt_message : PromptMessage → Json
prompt_message p = object (
    and_member (ascii "role") (string p.role)
      (and_member (ascii "content") (content_block p.content) no_member))

abbrev pub get_prompt_result : GetPromptResult → Json
get_prompt_result p = object (
    unless_none (ascii "description") string p.description
      (and_member (ascii "messages") (vec prompt_message p.messages) no_member))

abbrev pub error_body : ErrorBody Json → Json
error_body p = object (
    and_member (ascii "code") (number p.code) (
      and_member (ascii "message") (string p.message)
        (unless_none (ascii "data") kept p.details no_member)))

abbrev pub auth_params : AuthParams → Json
auth_params p = object (
    and_member (ascii "agent_id") (string p.agent_id) (
      and_member (ascii "token") (string p.token) (
        unless_none (ascii "nonce") string p.nonce
          (unless_none (ascii "eph_pub") string p.eph_pub no_member))))

abbrev pub auth_result : AuthResult → Json
auth_result p = object (
    and_member (ascii "ok") (boolean p.is_ok) (
      unless_none (ascii "session_key_b64") string p.session_key_b64 (
        unless_none (ascii "reason") string p.reason
          (unless_none (ascii "eph_pub") string p.eph_pub no_member))))
