-- ===== src/Core/Message/ReadBack.antt =====
-- crates/ohmcp-core/src/message.rs: objects without numbers and without optional values.
use ohmcp.Base.{◌≡◌, refl, List, [], ◌∷◌, Option, some, arith}
use ohmcp.Core.Json.{
  Json, once, elements, read_all, to_value, value_members, value_elements-elements,
}
use ohmcp.Core.Message.{
  Implementation, ContentBlock, CallToolResult, Resource, ListResourcesResult, ReadResourceParams,
  ResourceContents, ReadResourceResult, SubscribeResourceParams, ResourceUpdatedParams,
  PromptArgument, Prompt, ListPromptsResult, PromptMessage, GetPromptResult, AuthParams, AuthResult,
  InitializeParams, InitializeResult, Tool, ListToolsResult, GetPromptParams,
}
use ohmcp.Core.Message.Read
use ohmcp.Core.Message.Write

-- A list reads back when its elements do.
pub read_all-elements :
    {A : Type 0} (read : Json → Option A) (write : A → Json)
    → ((x : A) → read (write x) ≡ some x)
    → (l : List A) → read_all read (elements write l) ≡ some l
unfolding read_all elements
read_all-elements read write back [] = refl
read_all-elements read write back (x ∷ l) = rw (back x, read_all-elements read write back l) refl

pub implementation_lem :
    (p : Implementation) → Read.implementation (Write.implementation p) ≡ some p
unfolding once
implementation_lem p = ground arith

pub initialize_params_lem :
    (p : InitializeParams Json) → Read.initialize_params (Write.initialize_params p) ≡ some p
unfolding once
initialize_params_lem p = ground arith

pub initialize_result_lem :
    (p : InitializeResult Json) → Read.initialize_result (Write.initialize_result p) ≡ some p
unfolding once
initialize_result_lem p = ground arith

pub tool_lem : (p : Tool Json) → Read.tool (Write.tool p) ≡ some p
unfolding once
tool_lem p = ground arith

pub auth_params_lem : (p : AuthParams) → Read.auth_params (Write.auth_params p) ≡ some p
unfolding once
auth_params_lem p = ground arith

pub auth_result_lem : (p : AuthResult) → Read.auth_result (Write.auth_result p) ≡ some p
unfolding once
auth_result_lem p = ground arith

pub resource_lem : (p : Resource) → Read.resource (Write.resource p) ≡ some p
unfolding once
resource_lem p = ground arith

pub resource_contents_lem :
    (p : ResourceContents) → Read.resource_contents (Write.resource_contents p) ≡ some p
unfolding once
resource_contents_lem p = ground arith

pub prompt_argument_lem :
    (p : PromptArgument) → Read.prompt_argument (Write.prompt_argument p) ≡ some p
unfolding once
prompt_argument_lem p = ground arith

pub content_block_lem : (p : ContentBlock) → Read.content_block (Write.content_block p) ≡ some p
unfolding once
content_block_lem p = ground arith

pub prompt_message_lem : (p : PromptMessage) → Read.prompt_message (Write.prompt_message p) ≡ some p
unfolding once
prompt_message_lem p = ground arith

pub read_resource_params_lem :
    (p : ReadResourceParams) → Read.read_resource_params (Write.read_resource_params p) ≡ some p
unfolding once
read_resource_params_lem p = ground arith

pub subscribe_resource_params_lem :
    (p : SubscribeResourceParams)
    → Read.subscribe_resource_params (Write.subscribe_resource_params p) ≡ some p
unfolding once
subscribe_resource_params_lem p = ground arith

pub resource_updated_params_lem :
    (p : ResourceUpdatedParams)
    → Read.resource_updated_params (Write.resource_updated_params p) ≡ some p
unfolding once
resource_updated_params_lem p = ground arith

pub get_prompt_params_lem :
    (p : GetPromptParams Json) → Read.get_prompt_params (Write.get_prompt_params p) ≡ some p
unfolding once
get_prompt_params_lem p = ground arith

pub call_tool_result_lem :
    (p : CallToolResult) → Read.call_tool_result (Write.call_tool_result p) ≡ some p
unfolding once
call_tool_result_lem p =
    ground
      (arith, read_all-elements Read.content_block Write.content_block content_block_lem p.content)

-- `to_value` leaves what can be read.
content_value_lem :
    (p : ContentBlock) → Read.content_block (to_value (Write.content_block p)) ≡ some p
unfolding once to_value value_members
content_value_lem p = ground arith

pub call_tool_result_value_lem :
    (p : CallToolResult) → Read.call_tool_result (to_value (Write.call_tool_result p)) ≡ some p
unfolding once to_value value_members
call_tool_result_value_lem p =
    rw
      (
        value_elements-elements Write.content_block p.content,
        read_all-elements Read.content_block (λ b. to_value (Write.content_block b))
            content_value_lem p.content,
      )
      refl

pub prompt_lem : (p : Prompt) → Read.prompt (Write.prompt p) ≡ some p
unfolding once
prompt_lem p = ground (
  arith,
  read_all-elements Read.prompt_argument Write.prompt_argument prompt_argument_lem p.arguments,
)

pub list_prompts_result_lem :
    (p : ListPromptsResult) → Read.list_prompts_result (Write.list_prompts_result p) ≡ some p
unfolding once
list_prompts_result_lem p =
    ground (arith, read_all-elements Read.prompt Write.prompt prompt_lem p.prompts)

pub get_prompt_result_lem :
    (p : GetPromptResult) → Read.get_prompt_result (Write.get_prompt_result p) ≡ some p
unfolding once
get_prompt_result_lem p = ground (
  arith,
  read_all-elements Read.prompt_message Write.prompt_message prompt_message_lem p.messages,
)

pub list_tools_result_lem :
    (p : ListToolsResult Json) → Read.list_tools_result (Write.list_tools_result p) ≡ some p
unfolding once
list_tools_result_lem p = ground (arith, read_all-elements Read.tool Write.tool tool_lem p.tools)

pub list_resources_result_lem :
    (p : ListResourcesResult) → Read.list_resources_result (Write.list_resources_result p) ≡ some p
unfolding once
list_resources_result_lem p =
    ground (arith, read_all-elements Read.resource Write.resource resource_lem p.resources)

pub read_resource_result_lem :
    (p : ReadResourceResult) → Read.read_resource_result (Write.read_resource_result p) ≡ some p
unfolding once
read_resource_result_lem p = ground (
  arith,
  read_all-elements Read.resource_contents Write.resource_contents resource_contents_lem p.contents,
)
