-- ===== src/Server/Tools.antt =====
-- crates/ohmcpd/src/tools.rs: the registry of tools, resources and prompts. Handlers are the
-- functions that the host registers. `events` is what went to the broadcast channel.
use ohmcp.Base.{Bool, true, false, List, [], ◌∷◌, ◌++◌, Option, none, some}
use ohmcp.Base.Bytes.{Text}
use ohmcp.Base.Equality.{text_equality}
use ohmcp.Base.Maps.{lookup, insert, contains_key}
use ohmcp.Core.Message.{
  Tool, CallToolResult, text, Resource, ResourceContents, Prompt, GetPromptResult,
}

pub data ResourceEvent : Type 0 where
  updated : Text → ResourceEvent
  list_changed : ResourceEvent

module _ (Value : Type 0) where
  abbrev pub ToolHandler : Type 0
  ToolHandler = Value → CallToolResult

  abbrev pub PromptHandler : Type 0
  PromptHandler = Value → GetPromptResult

pub record ToolRegistry (Value : Type 0) : Type 0 where
  pub tools : List (Tool Value)
  pub handlers : List (Text × ToolHandler Value)
  pub cacheable : List (Text × Bool)
  pub resources : List Resource
  pub resource_contents : List (Text × ResourceContents)
  pub resource_events : List ResourceEvent
  pub prompts : List Prompt
  pub prompt_handlers : List (Text × PromptHandler Value)

abbrev unwrap_or_false : Option Bool → Bool
unwrap_or_false none = false
unwrap_or_false (some b) = b

abbrev resource_of : Text → Text → Text → Resource
resource_of uri name mime = record {
  uri = uri;
  name = name;
  description = none;
  mime_type = some mime;
}

abbrev contents_of : Text → Text → Text → ResourceContents
contents_of uri mime body = record {
  uri = uri;
  mime_type = some mime;
  text = some body;
  blob = none;
}

module _ {Value : Type 0} where
  abbrev pub new : ToolRegistry Value
  new = record {
    tools = [];
    handlers = [];
    cacheable = [];
    resources = [];
    resource_contents = [];
    resource_events = [];
    prompts = [];
    prompt_handlers = [];
  }

  unfoldable pub register :
      Text → Text → Value → Bool → ToolHandler Value → ToolRegistry Value → ToolRegistry Value
  register name description input_schema cacheable handler r = record r {
    tools =
        r.tools
        ++ (record { name = name; description = some description; input_schema = input_schema }
            ∷ []);
    handlers = insert name handler r.handlers;
    cacheable = insert name cacheable r.cacheable;
  }

  unfoldable pub is_cacheable : Text → ToolRegistry Value → Bool
  is_cacheable name r = unwrap_or_false (lookup name r.cacheable)

  abbrev call_handler : {B : Type 0} → Option (Value → B) → Value → Option B
  call_handler none args = none
  call_handler (some h) args = some (h args)

  unfoldable pub call : Text → Value → ToolRegistry Value → Option CallToolResult
  call name args r = call_handler (lookup name r.handlers) args

  unfoldable pub register_resource :
      Text → Text → Text → Text → ToolRegistry Value → ToolRegistry Value
  register_resource uri name mime body r = record r {
    resources = r.resources ++ (resource_of uri name mime ∷ []);
    resource_contents = insert uri (contents_of uri mime body) r.resource_contents;
  }

  unfoldable pub read_resource : Text → ToolRegistry Value → Option ResourceContents
  read_resource uri r = lookup uri r.resource_contents

  unfoldable pub has_resource : Text → ToolRegistry Value → Bool
  has_resource uri r = contains_key uri r.resource_contents

  abbrev update_found :
      Text → Text → Option ResourceContents → ToolRegistry Value → Bool × ToolRegistry Value
  update_found uri body none r = (false, r)
  update_found uri body (some c) r = (
    true,
    record r {
      resource_contents = insert uri (record c { text = some body }) r.resource_contents;
      resource_events = r.resource_events ++ (updated uri ∷ []);
    },
  )

  -- `update_resource`, and `update` of the `ResourceUpdater`, which shares the maps.
  unfoldable pub update_resource : Text → Text → ToolRegistry Value → Bool × ToolRegistry Value
  update_resource uri body r = update_found uri body (lookup uri r.resource_contents) r

  -- `add_resource` of the `ResourceUpdater`.
  unfoldable pub add_resource : Text → Text → Text → Text → ToolRegistry Value → ToolRegistry Value
  add_resource uri name mime body r =
      let r' = register_resource uri name mime body r in
      record r' { resource_events = r'.resource_events ++ (list_changed ∷ []) }

  unfoldable pub register_prompt :
      Prompt → PromptHandler Value → ToolRegistry Value → ToolRegistry Value
  register_prompt prompt handler r = record r {
    prompts = r.prompts ++ (prompt ∷ []);
    prompt_handlers = insert prompt.name handler r.prompt_handlers;
  }

  unfoldable pub get_prompt : Text → Value → ToolRegistry Value → Option GetPromptResult
  get_prompt name args r = call_handler (lookup name r.prompt_handlers) args

-- The result of a tool that is one text.
abbrev pub text_result : Text → CallToolResult
text_result body = record { content = text body ∷ []; is_error = false }
