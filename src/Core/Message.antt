-- ===== src/Core/Message.antt =====
-- crates/ohmcp-core/src/message.rs: the objects of the protocol. `Value` is serde_json's, of which
-- the model knows nothing.
pub mod Write
pub mod Read
pub mod Any
pub mod ReadBack
pub mod RoundTrip
use ohmcp.Base.{ℕ, Bool, List, Option}
use ohmcp.Base.Bytes.{Text}
use ohmcp.Base.Integers.{ℤ}

pub record Implementation : Type 0 where
  pub name : Text
  pub version : Text

pub record CancelParams : Type 0 where
  pub request_id : ℕ
  pub reason : Option Text

pub record ProgressParams : Type 0 where
  pub request_id : ℕ
  pub progress : ℕ
  pub total : Option ℕ
  pub message : Option Text

pub data ContentBlock : Type 0 where
  text : Text → ContentBlock
  image : Text → Text → ContentBlock

pub record CallToolResult : Type 0 where
  pub content : List ContentBlock
  pub is_error : Bool

pub record Resource : Type 0 where
  pub uri : Text
  pub name : Text
  pub description : Option Text
  pub mime_type : Option Text

pub record ListResourcesResult : Type 0 where
  pub resources : List Resource

pub record ReadResourceParams : Type 0 where
  pub uri : Text

pub record ResourceContents : Type 0 where
  pub uri : Text
  pub mime_type : Option Text
  pub text : Option Text
  pub blob : Option Text

pub record ReadResourceResult : Type 0 where
  pub contents : List ResourceContents

pub record SubscribeResourceParams : Type 0 where
  pub uri : Text

pub record ResourceUpdatedParams : Type 0 where
  pub uri : Text

pub record PromptArgument : Type 0 where
  pub name : Text
  pub description : Option Text
  pub required : Bool

pub record Prompt : Type 0 where
  pub name : Text
  pub description : Option Text
  pub arguments : List PromptArgument

pub record ListPromptsResult : Type 0 where
  pub prompts : List Prompt

pub record PromptMessage : Type 0 where
  pub role : Text
  pub content : ContentBlock

pub record GetPromptResult : Type 0 where
  pub description : Option Text
  pub messages : List PromptMessage

pub record AuthParams : Type 0 where
  pub agent_id : Text
  pub token : Text
  pub nonce : Option Text
  pub eph_pub : Option Text

pub record AuthResult : Type 0 where
  pub is_ok : Bool
  pub session_key_b64 : Option Text
  pub reason : Option Text
  pub eph_pub : Option Text

pub record InitializeParams (Value : Type 0) : Type 0 where
  pub protocol_version : Text
  pub client_info : Implementation
  pub capabilities : Value

pub record InitializeResult (Value : Type 0) : Type 0 where
  pub protocol_version : Text
  pub server_info : Implementation
  pub capabilities : Value

pub record Tool (Value : Type 0) : Type 0 where
  pub name : Text
  pub description : Option Text
  pub input_schema : Value

pub record ListToolsResult (Value : Type 0) : Type 0 where
  pub tools : List (Tool Value)

pub record CallToolParams (Value : Type 0) : Type 0 where
  pub name : Text
  pub arguments : Value
  pub meta : Option Value

pub record GetPromptParams (Value : Type 0) : Type 0 where
  pub name : Text
  pub arguments : Value

-- The field `data` is `details` here.
pub record ErrorBody (Value : Type 0) : Type 0 where
  pub code : ℤ
  pub message : Text
  pub details : Option Value
