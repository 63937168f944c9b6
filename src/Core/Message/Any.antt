-- ===== src/Core/Message/Any.antt =====
-- crates/ohmcp-core/src/message.rs: every object as one type.
use ohmcp.Base.{Option, none, some}
use ohmcp.Core.Json.{Json}
use ohmcp.Core.Message.{
  Implementation, CancelParams, ProgressParams, ContentBlock, CallToolResult, Resource,
  ListResourcesResult, ReadResourceParams, ResourceContents, ReadResourceResult,
  SubscribeResourceParams, ResourceUpdatedParams, PromptArgument, Prompt, ListPromptsResult,
  PromptMessage, GetPromptResult, AuthParams, AuthResult, InitializeParams, InitializeResult, Tool,
  ListToolsResult, CallToolParams, GetPromptParams, ErrorBody,
}
use ohmcp.Core.Message.Read
use ohmcp.Core.Message.Write

pub data Message : Type 0 where
  implementation : Implementation → Message
  initialize_params : InitializeParams Json → Message
  initialize_result : InitializeResult Json → Message
  tool : Tool Json → Message
  list_tools_result : ListToolsResult Json → Message
  call_tool_params : CallToolParams Json → Message
  cancel_params : CancelParams → Message
  progress_params : ProgressParams → Message
  content_block : ContentBlock → Message
  call_tool_result : CallToolResult → Message
  resource : Resource → Message
  list_resources_result : ListResourcesResult → Message
  read_resource_params : ReadResourceParams → Message
  resource_contents : ResourceContents → Message
  read_resource_result : ReadResourceResult → Message
  subscribe_resource_params : SubscribeResourceParams → Message
  resource_updated_params : ResourceUpdatedParams → Message
  prompt_argument : PromptArgument → Message
  prompt : Prompt → Message
  list_prompts_result : ListPromptsResult → Message
  get_prompt_params : GetPromptParams Json → Message
  prompt_message : PromptMessage → Message
  get_prompt_result : GetPromptResult → Message
  error_body : ErrorBody Json → Message
  auth_params : AuthParams → Message
  auth_result : AuthResult → Message

unfoldable pub write : Message → Json
write (implementation p) = Write.implementation p
write (initialize_params p) = Write.initialize_params p
write (initialize_result p) = Write.initialize_result p
write (tool p) = Write.tool p
write (list_tools_result p) = Write.list_tools_result p
write (call_tool_params p) = Write.call_tool_params p
write (cancel_params p) = Write.cancel_params p
write (progress_params p) = Write.progress_params p
write (content_block p) = Write.content_block p
write (call_tool_result p) = Write.call_tool_result p
write (resource p) = Write.resource p
write (list_resources_result p) = Write.list_resources_result p
write (read_resource_params p) = Write.read_resource_params p
write (resource_contents p) = Write.resource_contents p
write (read_resource_result p) = Write.read_resource_result p
write (subscribe_resource_params p) = Write.subscribe_resource_params p
write (resource_updated_params p) = Write.resource_updated_params p
write (prompt_argument p) = Write.prompt_argument p
write (prompt p) = Write.prompt p
write (list_prompts_result p) = Write.list_prompts_result p
write (get_prompt_params p) = Write.get_prompt_params p
write (prompt_message p) = Write.prompt_message p
write (get_prompt_result p) = Write.get_prompt_result p
write (error_body p) = Write.error_body p
write (auth_params p) = Write.auth_params p
write (auth_result p) = Write.auth_result p

abbrev pub read_as : {A : Type 0} → (A → Message) → Option A → Option Message
read_as f none = none
read_as f (some p) = some (f p)

-- What is read where an object of the type of this one is expected.
unfoldable pub read_like : Message → Json → Option Message
read_like (implementation p) v = read_as implementation (Read.implementation v)
read_like (initialize_params p) v = read_as initialize_params (Read.initialize_params v)
read_like (initialize_result p) v = read_as initialize_result (Read.initialize_result v)
read_like (tool p) v = read_as tool (Read.tool v)
read_like (list_tools_result p) v = read_as list_tools_result (Read.list_tools_result v)
read_like (call_tool_params p) v = read_as call_tool_params (Read.call_tool_params v)
read_like (cancel_params p) v = read_as cancel_params (Read.cancel_params v)
read_like (progress_params p) v = read_as progress_params (Read.progress_params v)
read_like (content_block p) v = read_as content_block (Read.content_block v)
read_like (call_tool_result p) v = read_as call_tool_result (Read.call_tool_result v)
read_like (resource p) v = read_as resource (Read.resource v)
read_like (list_resources_result p) v = read_as list_resources_result (Read.list_resources_result v)
read_like (read_resource_params p) v = read_as read_resource_params (Read.read_resource_params v)
read_like (resource_contents p) v = read_as resource_contents (Read.resource_contents v)
read_like (read_resource_result p) v = read_as read_resource_result (Read.read_resource_result v)
read_like (subscribe_resource_params p) v =
    read_as subscribe_resource_params (Read.subscribe_resource_params v)
read_like (resource_updated_params p) v =
    read_as resource_updated_params (Read.resource_updated_params v)
read_like (prompt_argument p) v = read_as prompt_argument (Read.prompt_argument v)
read_like (prompt p) v = read_as prompt (Read.prompt v)
read_like (list_prompts_result p) v = read_as list_prompts_result (Read.list_prompts_result v)
read_like (get_prompt_params p) v = read_as get_prompt_params (Read.get_prompt_params v)
read_like (prompt_message p) v = read_as prompt_message (Read.prompt_message v)
read_like (get_prompt_result p) v = read_as get_prompt_result (Read.get_prompt_result v)
read_like (error_body p) v = read_as error_body (Read.error_body v)
read_like (auth_params p) v = read_as auth_params (Read.auth_params v)
read_like (auth_result p) v = read_as auth_result (Read.auth_result v)
