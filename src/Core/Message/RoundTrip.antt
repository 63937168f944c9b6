-- ===== src/Core/Message/RoundTrip.antt =====
-- crates/ohmcp-core/src/message.rs: the objects, written and read back.
use ohmcp.Core.Message.ReadBack.{
  implementation_lem, initialize_params_lem, initialize_result_lem, tool_lem, auth_params_lem,
  auth_result_lem, resource_lem, resource_contents_lem, prompt_argument_lem, content_block_lem,
  prompt_message_lem, read_resource_params_lem, subscribe_resource_params_lem,
  resource_updated_params_lem, get_prompt_params_lem, call_tool_result_lem, prompt_lem,
  list_prompts_result_lem, get_prompt_result_lem, list_tools_result_lem, list_resources_result_lem,
  read_resource_result_lem,
}
use ohmcp.Base.{ap, ℕ, ◌^◌, ◌<◌, ◌≡◌, Option, some, none, arith}
use ohmcp.Base.Integers.{ℤ, pos, negsuc}
use ohmcp.Core.Json.{Json, null, once}
use ohmcp.Core.Message.{CancelParams, ProgressParams, CallToolParams, ErrorBody}
use ohmcp.Core.Message.Any.{
  Message, implementation, initialize_params, initialize_result, tool, list_tools_result,
  call_tool_params, cancel_params, progress_params, content_block, call_tool_result, resource,
  list_resources_result, read_resource_params, resource_contents, read_resource_result,
  subscribe_resource_params, resource_updated_params, prompt_argument, prompt, list_prompts_result,
  get_prompt_params, prompt_message, get_prompt_result, error_body, auth_params, auth_result, write,
  read_like, read_as,
}
use ohmcp.Core.Message.Read
use ohmcp.Core.Message.Write

-- Numbers that are an i64, a u64, and an optional u64.
abbrev pub InI64 : ℤ → Type 0
InI64 (pos n) = n < 2 ^ 63
InI64 (negsuc n) = n < 2 ^ 63

abbrev pub OptionFits : Option ℕ → Type 0
OptionFits none = Unit
OptionFits (some n) = n < 2 ^ 64

abbrev pub InRange : Message → Type 0
InRange (cancel_params p) = p.request_id < 2 ^ 64
InRange (progress_params p) = (p.request_id < 2 ^ 64) × (p.progress < 2 ^ 64) × OptionFits p.total
InRange (error_body p) = InI64 p.code
InRange _ = Unit

-- An optional value that is null comes back as none.
abbrev pub settled : Option Json → Option Json
settled (some null) = none
settled o = o

abbrev pub normal : Message → Message
normal (call_tool_params p) = call_tool_params (record p { meta = settled p.meta })
normal (error_body p) = error_body (record p { details = settled p.details })
normal m = m

call_tool_params_lem :
    (p : CallToolParams Json)
    → Read.call_tool_params (Write.call_tool_params p) ≡ some (record p { meta = settled p.meta })
unfolding once
call_tool_params_lem p = ground arith

error_body_lem :
    (p : ErrorBody Json)
    → InI64 p.code
    → Read.error_body (Write.error_body p) ≡ some (record p { details = settled p.details })
unfolding once
error_body_lem p h = ground arith

cancel_params_lem :
    (p : CancelParams) → p.request_id < 2 ^ 64 → Read.cancel_params (Write.cancel_params p) ≡ some p
unfolding once
cancel_params_lem p h = ground arith

progress_params_lem :
    (p : ProgressParams)
    → p.request_id < 2 ^ 64
    → p.progress < 2 ^ 64
    → OptionFits p.total
    → Read.progress_params (Write.progress_params p) ≡ some p
unfolding once
progress_params_lem p h j k = ground arith

-- Each object is read back as it was written, where its numbers are in range: but an optional value
-- that is null comes back as none.
pub read_like-write : (m : Message) → InRange m → read_like m (write m) ≡ some (normal m)
unfolding read_like write
read_like-write (implementation p) h = ap (read_as implementation) (implementation_lem p)
read_like-write (initialize_params p) h = ap (read_as initialize_params) (initialize_params_lem p)
read_like-write (initialize_result p) h = ap (read_as initialize_result) (initialize_result_lem p)
read_like-write (tool p) h = ap (read_as tool) (tool_lem p)
read_like-write (list_tools_result p) h = ap (read_as list_tools_result) (list_tools_result_lem p)
read_like-write (call_tool_params p) h = ap (read_as call_tool_params) (call_tool_params_lem p)
read_like-write (cancel_params p) h = ap (read_as cancel_params) (cancel_params_lem p h)
read_like-write (progress_params p) h =
    ap (read_as progress_params) (progress_params_lem p h.0 h.1 h.2)
read_like-write (content_block p) h = ap (read_as content_block) (content_block_lem p)
read_like-write (call_tool_result p) h = ap (read_as call_tool_result) (call_tool_result_lem p)
read_like-write (resource p) h = ap (read_as resource) (resource_lem p)
read_like-write (list_resources_result p) h =
    ap (read_as list_resources_result) (list_resources_result_lem p)
read_like-write (read_resource_params p) h =
    ap (read_as read_resource_params) (read_resource_params_lem p)
read_like-write (resource_contents p) h = ap (read_as resource_contents) (resource_contents_lem p)
read_like-write (read_resource_result p) h =
    ap (read_as read_resource_result) (read_resource_result_lem p)
read_like-write (subscribe_resource_params p) h =
    ap (read_as subscribe_resource_params) (subscribe_resource_params_lem p)
read_like-write (resource_updated_params p) h =
    ap (read_as resource_updated_params) (resource_updated_params_lem p)
read_like-write (prompt_argument p) h = ap (read_as prompt_argument) (prompt_argument_lem p)
read_like-write (prompt p) h = ap (read_as prompt) (prompt_lem p)
read_like-write (list_prompts_result p) h =
    ap (read_as list_prompts_result) (list_prompts_result_lem p)
read_like-write (get_prompt_params p) h = ap (read_as get_prompt_params) (get_prompt_params_lem p)
read_like-write (prompt_message p) h = ap (read_as prompt_message) (prompt_message_lem p)
read_like-write (get_prompt_result p) h = ap (read_as get_prompt_result) (get_prompt_result_lem p)
read_like-write (error_body p) h = ap (read_as error_body) (error_body_lem p h)
read_like-write (auth_params p) h = ap (read_as auth_params) (auth_params_lem p)
read_like-write (auth_result p) h = ap (read_as auth_result) (auth_result_lem p)
