-- ===== src/Client/Methods.antt =====
-- crates/ohmcp-client/src/lib.rs: the methods that the host calls.
use ohmcp.Base.{
  false, ℕ, Bool, true, ◌++◌, List, [], ◌∷◌, Option, none, some, Result, if◌then◌else◌, ltb, length,
}
use ohmcp.Base.Words.{add_u64}
use ohmcp.Base.Bytes.{Text, ascii}
use ohmcp.Base.Equality.{nat_eq}
use ohmcp.Base.Maps.{add, discard}
use ohmcp.Core.Message.{
  ListToolsResult, CallToolResult, ListResourcesResult, ReadResourceResult, ListPromptsResult,
  GetPromptResult,
}
use ohmcp.Core.MsgType.{MsgType}
use ohmcp.Cache.ResultCache.{CacheKey, compute}
use ohmcp.Transport.Shm.{shm_threshold}
use ohmcp.Transport.Stream.{send}
use ohmcp.Pipeline.{cache_stats}
use ohmcp.Client.State.{
  OhmcpClient, ClientError, json, Action, after, ◌>>=◌, ◌>>◌, pure, or_fail, ClientOutside,
}
use ohmcp.Client.Request.{
  Moment, request, request_with_cache, request_with_id, sent_frame, wrapped_frame,
}

module _ {Value : Type 0} (out : ClientOutside Value) where
  -- The text of a call's parameters, put together around the text of the arguments.
  abbrev pub call_payload : Text → List ℕ → List ℕ
  call_payload name canonical =
      ascii "{\"name\":"
      ++ (out.serde.write_text name ++ (ascii ",\"arguments\":" ++ (canonical ++ ascii "}")))

  -- Large arguments are not looked for in the cache.
  abbrev pub call_key : Text → List ℕ → Option CacheKey
  call_key name canonical =
      if ltb (length canonical) shm_threshold
      then some (compute out.digest name canonical)
      else none

  abbrev pub uri_payload : Text → List ℕ
  uri_payload uri = out.serde.to_vec (out.serde.object ((ascii "uri", out.serde.string uri) ∷ []))

  abbrev pub progress_payload : Text → Value → List ℕ
  progress_payload name arguments = out.serde.to_vec (
      out.serde.object (
        (ascii "name", out.serde.string name)
        ∷ (ascii "arguments", arguments)
        ∷ (ascii "_meta", out.serde.object ((ascii "progress", out.serde.boolean true) ∷ []))
        ∷ []))

  module _ (m : Moment) where
    abbrev pub ask : {A : Type 0} → MsgType → List ℕ → (List ℕ → Option A) → Action A
    ask t payload read = do body ← request out m t payload; or_fail json (read body)

    unfoldable pub list_tools : Action (ListToolsResult Value)
    unfolding request
    list_tools = ask MsgType.list_tools [] out.serde.read_tools

    unfoldable pub call_tool : Text → Value → Action CallToolResult
    unfolding request_with_cache
    call_tool name arguments = do
      let canonical = out.serde.to_vec arguments
      body ←
          request_with_cache out m MsgType.call_tool (call_payload name canonical)
            (call_key name canonical)
      or_fail json (out.serde.read_call_result body)

    abbrev pub drop_callback :
        ℕ → Result ClientError (List ℕ) × OhmcpClient → Result ClientError (List ℕ) × OhmcpClient
    drop_callback id (r, c) = (r, record c { progress = discard id c.progress })

    unfoldable pub call_tool_with_progress : Text → Value → Action CallToolResult
    unfolding request_with_id
    call_tool_with_progress name arguments c =
        let id = c.next_id in
        let c' = record c { next_id = add_u64 c.next_id 1; progress = add id c.progress } in
        after
          (drop_callback id
            (request_with_id out m MsgType.call_tool (progress_payload name arguments) none id c'))
          (λ body. or_fail json (out.serde.read_call_result body))

    unfoldable pub cancel : ℕ → Option Text → Action (Unit {0})
    cancel request_id reason c =
        let (f, c') =
          wrapped_frame out MsgType.cancel request_id
            (out.serde.write_cancel (record { request_id = request_id; reason = reason })) c in
        sent_frame out m (send m.write f c'.writer) c'

    unfoldable pub list_resources : Action ListResourcesResult
    unfolding request
    list_resources = ask MsgType.list_resources [] out.serde.read_resources

    unfoldable pub read_resource : Text → Action ReadResourceResult
    unfolding request
    read_resource uri = ask MsgType.read_resource (uri_payload uri) out.serde.read_contents

    abbrev pub ask_nothing : MsgType → List ℕ → Action (Unit {0})
    ask_nothing t payload = request out m t payload >> pure tt

    unfoldable pub subscribe_resource : Text → Action (Unit {0})
    unfolding request
    subscribe_resource uri = ask_nothing MsgType.subscribe_resource (uri_payload uri)

    unfoldable pub unsubscribe_resource : Text → Action (Unit {0})
    unfolding request
    unsubscribe_resource uri = ask_nothing MsgType.unsubscribe_resource (uri_payload uri)

    unfoldable pub list_prompts : Action ListPromptsResult
    unfolding request
    list_prompts = ask MsgType.list_prompts [] out.serde.read_prompts

    unfoldable pub get_prompt : Text → Value → Action GetPromptResult
    unfolding request
    get_prompt name arguments =
        ask MsgType.get_prompt
          (out.serde.to_vec (
            out.serde.object
              ((ascii "name", out.serde.string name) ∷ (ascii "arguments", arguments) ∷ [])))
          out.serde.read_prompt

    unfoldable pub ping : Action (Unit {0})
    unfolding request
    ping = ask_nothing MsgType.ping []

unfoldable pub on_resource_updated : OhmcpClient → OhmcpClient
on_resource_updated c = record c { on_updated = true }

unfoldable pub on_resource_list_changed : OhmcpClient → OhmcpClient
on_resource_list_changed c = record c { on_list_changed = true }

abbrev pub shm_enabled : OhmcpClient → Bool
shm_enabled c = elim c.shm [ none ↦ false | some r ↦ true ]

unfoldable pub client_cache_stats : OhmcpClient → ℕ × ℕ
client_cache_stats c = cache_stats c.pipeline
