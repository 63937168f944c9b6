-- ===== src/Server/Turns.antt =====
-- crates/ohmcpd/src/server.rs: only `Auth` changes who the agent is, what it may do, and the key.
use ohmcp.Server.Handlers.{
  handle_ping, handle_list_prompts, handle_list_resources, handle_list_tools, handle_initialize,
  subscription, handle_subscription, handle_shm_setup, contents_reply, prompt_reply, cancel_body,
  cancelled_by, handle_read_resource, handle_get_prompt, handle_cancel, enable_rings, setup_flushed,
  after_flush, unwrapped, setup_text, raw_sent, both, send_rings,
}
use ohmcp.Base.{◌&&◌, not, ℕ, Bool, true, false, refl, Result, ok, err, Option, none, some, List}
use ohmcp.Base.Bytes.{Text}
use ohmcp.Core.MsgType.{
  MsgType, shm_setup, initialize, list_tools, list_resources, read_resource, list_prompts,
  get_prompt, ping, subscribe_resource, unsubscribe_resource, cancel, call_tool, initialize_result,
  list_tools_result, pong, shm_setup_result, list_resources_result, read_resource_result,
  list_prompts_result, get_prompt_result, subscribe_resource_result,
}
use ohmcp.Core.Message.{ResourceContents, GetPromptResult, CancelParams}
use ohmcp.Core.Frame.{Frame}
use ohmcp.Transport.Shm.{ShmRing}
use ohmcp.Server.Session.{Outside, Session, Answers}
use ohmcp.Server.Keeping.{Keeps, Keeps-all, Keeps-then, After}
use ohmcp.Server.Requests.{
  reply-Keeps, reply_error-Keeps, unwrapped-Keeps, with_body-After, same-Keeps, Keeps-if, After-if,
  handle_call-After,
}
use ohmcp.Server.Dispatch.{handle_request}

module _ {Value : Type 0} (out : Outside Value) (a : Answers) where
  contents_reply-Keeps :
      (id : ℕ) (uri : Text) (o : Option ResourceContents) (s : Session Value)
      → Keeps s (contents_reply out a id uri o s)
  contents_reply-Keeps id uri none s = reply_error-Keeps out 32002 _ id s
  contents_reply-Keeps id uri (some c) s = reply-Keeps out read_resource_result id _ s

  handle_read_resource-After :
      (f : Frame) (s : Session Value) → After (Keeps s) (handle_read_resource out a f s)
  unfolding handle_read_resource
  handle_read_resource-After f s =
      with_body-After out a _ _
        (λ params t. contents_reply-Keeps f.header.request_id params.uri _ t)
        (unwrapped out a f s).0 s (unwrapped out a f s).1 (unwrapped-Keeps out a f s)

  prompt_reply-Keeps :
      (id : ℕ) (name : Text) (o : Option GetPromptResult) (s : Session Value)
      → Keeps s (prompt_reply out a id name o s)
  prompt_reply-Keeps id name none s = reply_error-Keeps out 32602 _ id s
  prompt_reply-Keeps id name (some c) s = reply-Keeps out get_prompt_result id _ s

  handle_get_prompt-After :
      (f : Frame) (s : Session Value) → After (Keeps s) (handle_get_prompt out a f s)
  unfolding handle_get_prompt
  handle_get_prompt-After f s =
      with_body-After out a _ _ (λ params t. prompt_reply-Keeps f.header.request_id params.name _ t)
        (unwrapped out a f s).0 s (unwrapped out a f s).1 (unwrapped-Keeps out a f s)

  subscription-Keeps :
      (is_sub : Bool) (id : ℕ) (uri : Text) (s : Session Value)
      → Keeps s (subscription out a is_sub id uri s)
  unfolding subscription
  subscription-Keeps is_sub id uri s = Keeps-if out _ _ _ (reply_error-Keeps out 32002 _ id s) (
      Keeps-then (same-Keeps out _ s refl refl refl refl refl)
        (reply-Keeps out subscribe_resource_result id _ _))

  handle_subscription-After :
      (is_sub : Bool) (f : Frame) (s : Session Value)
      → After (Keeps s) (handle_subscription out a is_sub f s)
  unfolding handle_subscription
  handle_subscription-After is_sub f s =
      with_body-After out a _ _
        (λ params t. subscription-Keeps is_sub f.header.request_id params.uri t)
        (unwrapped out a f s).0 s (unwrapped out a f s).1 (unwrapped-Keeps out a f s)

  cancelled_by-Keeps :
      (o : Option CancelParams) (s : Session Value) → Keeps s (cancelled_by out a o s)
  cancelled_by-Keeps none s = Keeps-all s
  cancelled_by-Keeps (some params) s = same-Keeps out _ s refl refl refl refl refl

  cancel_body-After :
      (r : Result Text (List ℕ)) (s t : Session Value)
      → Keeps s t
      → After (Keeps s) (cancel_body out a r t)
  cancel_body-After (err e) s t k = k
  cancel_body-After (ok body) s t k =
      Keeps-then k (cancelled_by-Keeps (out.serde.read_cancel body) t)

  handle_cancel-After : (f : Frame) (s : Session Value) → After (Keeps s) (handle_cancel out a f s)
  unfolding handle_cancel
  handle_cancel-After f s =
      cancel_body-After (unwrapped out a f s).0 s (unwrapped out a f s).1
        (unwrapped-Keeps out a f s)

  enable_rings-Keeps :
      (b : Bool) (d u : Option ShmRing) (s : Session Value) → Keeps s (enable_rings b d u s)
  enable_rings-Keeps false d u s = Keeps-all s
  enable_rings-Keeps true none u s = Keeps-all s
  enable_rings-Keeps true (some d) none s = Keeps-all s
  enable_rings-Keeps true (some d) (some u) s = same-Keeps out _ s refl refl refl refl refl

  setup_flushed-After :
      (id : ℕ) (d u : Option ShmRing) (s t : Session Value)
      → Keeps s t
      → After (Keeps s) (setup_flushed out a id d u t)
  setup_flushed-After id d u s t k =
      let (sent, bytes) = send_rings out a d u in
      let success = sent && both d u in
      let k' : Keeps s (raw_sent out a bytes t) =
        Keeps-then k (same-Keeps out _ t refl refl refl refl refl) in
      After-if out s (not a.dup) _ _ k (
        After-if out s (not a.joined) _ _ k' (
          Keeps-then k' (
            Keeps-then (reply-Keeps out shm_setup_result id (setup_text out a success) _)
              (enable_rings-Keeps success d u _))))

  after_flush-After :
      (id : ℕ) (b : Bool) (s t : Session Value)
      → Keeps s t
      → After (Keeps s) (after_flush out a id b t)
  after_flush-After id true s t k = setup_flushed-After id _ _ s t k
  after_flush-After id false s t k = k

  handle_shm_setup-After :
      (id : ℕ) (s : Session Value) → After (Keeps s) (handle_shm_setup out a id s)
  unfolding handle_shm_setup
  handle_shm_setup-After id s =
      after_flush-After id _ s _ (same-Keeps out _ s refl refl refl refl refl)

  -- Every request of an open session leaves the agent, its grants and the key as they are.
  pub handle_request-After :
      (t : MsgType) (f : Frame) (s : Session Value) → After (Keeps s) (handle_request out a t f s)
  unfolding handle_request handle_initialize handle_list_tools handle_list_resources
      handle_list_prompts handle_ping
  handle_request-After shm_setup f s = handle_shm_setup-After f.header.request_id s
  handle_request-After initialize f s = reply-Keeps out initialize_result f.header.request_id _ s
  handle_request-After list_tools f s = reply-Keeps out list_tools_result f.header.request_id _ s
  handle_request-After list_resources f s =
      reply-Keeps out list_resources_result f.header.request_id _ s
  handle_request-After read_resource f s = handle_read_resource-After f s
  handle_request-After list_prompts f s =
      reply-Keeps out list_prompts_result f.header.request_id _ s
  handle_request-After get_prompt f s = handle_get_prompt-After f s
  handle_request-After ping f s = reply-Keeps out pong f.header.request_id _ s
  handle_request-After subscribe_resource f s = handle_subscription-After true f s
  handle_request-After unsubscribe_resource f s = handle_subscription-After false f s
  handle_request-After cancel f s = handle_cancel-After f s
  handle_request-After call_tool f s = handle_call-After out a f s
  handle_request-After _ f s = Keeps-all s
