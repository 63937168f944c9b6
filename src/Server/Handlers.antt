-- ===== src/Server/Handlers.antt =====
-- crates/ohmcpd/src/server.rs: the requests of an open session, without `CallTool`.
use ohmcp.Base.{
  ℕ, Bool, true, false, not, ◌&&◌, ◌++◌, List, [], ◌∷◌, Result, ok, err, Option, none, some,
  if◌then◌else◌,
}
use ohmcp.Base.Bytes.{Text, ascii}
use ohmcp.Base.Maps.{add, discard}
use ohmcp.Base.Equality.{text_equality, nat_eq}
use ohmcp.Core.Message.{InitializeResult, ResourceContents, GetPromptResult, CancelParams}
use ohmcp.Core.MsgType.{
  shm_setup_result, initialize_result, list_tools_result, list_resources_result,
  read_resource_result, list_prompts_result, get_prompt_result, pong, subscribe_resource_result,
}
use ohmcp.Core.Frame.{Frame}
use ohmcp.Transport.Shm.{ShmRing, Created, created, failed, create, default_shm_cap}
use ohmcp.Transport.Stream.{flush}
use ohmcp.Pipeline.{unwrap}
use ohmcp.Server.Tools.{read_resource, has_resource, get_prompt}
use ohmcp.Server.Session.{Outside, Session, Answers, Next, goes_on, failed, reply, reply_error}
use ohmcp.Transport.Shm

-- `ShmRing::create(DEFAULT_SHM_CAP).ok()`; the size is one that it takes.
unfoldable pub new_ring : Shm.Calls → Option ShmRing
new_ring calls = elim (create calls default_shm_cap) [
  | Shm.panicked ↦ none
  | Shm.failed ↦ none
  | Shm.created r ↦ some r
]

abbrev pub both : Option ShmRing → Option ShmRing → Bool
both (some d) (some u) = true
both (some d) none = false
both none u = false

abbrev pub is_ok : {E A : Type 0} → Result E A → Bool
is_ok (ok x) = true
is_ok (err e) = false

abbrev pub enable_rings :
    {Value : Type 0} → Bool → Option ShmRing → Option ShmRing → Session Value → Session Value
enable_rings true (some d) (some u) s = record s { shm = some d; shm_up = some u }
enable_rings true (some d) none s = s
enable_rings true none u s = s
enable_rings false d u s = s

module _ {Value : Type 0} (out : Outside Value) (a : Answers) where
  -- The bytes that go around the buffer of the writer, each with a descriptor, or the one that
  -- declines; and whether all went out.
  unfoldable pub send_rings : Option ShmRing → Option ShmRing → Bool × List ℕ
  send_rings (some d) (some u) =
      if a.first_send
      then (if a.second_send then (true, 1 ∷ 1 ∷ []) else (false, 1 ∷ []))
      else (false, [])
  send_rings none u = (a.first_send, if a.first_send then 0 ∷ [] else [])
  send_rings (some d) none = (a.first_send, if a.first_send then 0 ∷ [] else [])

  abbrev pub setup_text : Bool → List ℕ
  setup_text success = out.serde.to_vec (
      out.serde.object (
        (ascii "ok", out.serde.boolean success)
        ∷ (ascii "size", out.serde.number default_shm_cap)
        ∷ (ascii "up_size", out.serde.number default_shm_cap)
        ∷ []))

  abbrev pub raw_sent : List ℕ → Session Value → Session Value
  raw_sent bytes s = record s { writer = record s.writer { sent = s.writer.sent ++ bytes } }

  abbrev pub setup_flushed : ℕ → Option ShmRing → Option ShmRing → Session Value → Next Value
  setup_flushed id d u s =
      let (sent, bytes) = send_rings d u in
      let success = sent && both d u in
      if not a.dup
      then failed s
      else if not a.joined
      then failed (raw_sent bytes s)
      else goes_on (
          enable_rings success d u
            (reply out shm_setup_result id (setup_text success) (raw_sent bytes s)))

  abbrev pub after_flush : ℕ → Bool → Session Value → Next Value
  after_flush id true s = setup_flushed id (new_ring a.down) (new_ring a.up) s
  after_flush id false s = failed s

  unfoldable pub handle_shm_setup : ℕ → Session Value → Next Value
  unfolding reply new_ring send_rings
  handle_shm_setup id s =
      let (done, w) = flush a.write s.writer in
      after_flush id (is_ok done) (record s { writer = w })

module _ {Value : Type 0} (out : Outside Value) (a : Answers) where
  -- `env!("CARGO_PKG_VERSION")`, of Cargo.toml.
  abbrev initialize_result_of : InitializeResult Value
  initialize_result_of = record {
    protocol_version = ascii "2025-06-18";
    server_info = record { name = ascii "ohmcpd"; version = ascii "0.1.0" };
    capabilities = out.serde.object (
        (ascii "tools", out.serde.object [])
        ∷ (ascii "resources", out.serde.object [])
        ∷ (ascii "prompts", out.serde.object [])
        ∷ []);
  }

  unfoldable pub handle_initialize : ℕ → Session Value → Session Value
  handle_initialize id s =
      reply out initialize_result id (out.serde.write_initialize initialize_result_of) s

  unfoldable pub handle_list_tools : ℕ → Session Value → Session Value
  handle_list_tools id s =
      reply out list_tools_result id
        (out.serde.write_tools (record { tools = s.shared.registry.tools })) s

  unfoldable pub handle_list_resources : ℕ → Session Value → Session Value
  handle_list_resources id s =
      reply out list_resources_result id
        (out.serde.write_resources (record { resources = s.shared.registry.resources })) s

  unfoldable pub handle_list_prompts : ℕ → Session Value → Session Value
  handle_list_prompts id s =
      reply out list_prompts_result id
        (out.serde.write_prompts (record { prompts = s.shared.registry.prompts })) s

  unfoldable pub handle_ping : ℕ → Session Value → Session Value
  handle_ping id s = reply out pong id (ascii "{}") s

  abbrev pub parsed : {B : Type 0} → Session Value → (B → Session Value) → Option B → Next Value
  parsed s go none = failed s
  parsed s go (some b) = goes_on (go b)

  -- The payload is unwrapped and read, and what was read is handled; either can fail.
  unfoldable pub with_body :
      {B : Type 0}
      → (List ℕ → Option B)
      → (B → Session Value → Session Value)
      → Result Text (List ℕ)
      → Session Value
      → Next Value
  with_body read go (err e) s = failed s
  with_body read go (ok body) s = parsed s (λ b. go b s) (read body)

  abbrev pub unwrapped : Frame → Session Value → Result Text (List ℕ) × Session Value
  unwrapped f s =
      let (body, p) = unwrap out.lz4 out.aead a.now f s.pipeline in
      (body, record s { pipeline = p })

  abbrev pub contents_reply : ℕ → Text → Option ResourceContents → Session Value → Session Value
  contents_reply id uri (some contents) s =
      reply out read_resource_result id
        (out.serde.write_contents (record { contents = contents ∷ [] })) s
  contents_reply id uri none s = reply_error out 32002 (ascii "resource not found: " ++ uri) id s

  unfoldable pub handle_read_resource : Frame → Session Value → Next Value
  unfolding with_body
  handle_read_resource f s =
      let (body, s') = unwrapped f s in
      with_body out.serde.read_resource_params
        (λ params t.
          contents_reply f.header.request_id params.uri (read_resource params.uri t.shared.registry)
            t)
        body s'

  abbrev pub prompt_reply : ℕ → Text → Option GetPromptResult → Session Value → Session Value
  prompt_reply id name (some result) s =
      reply out get_prompt_result id (out.serde.write_prompt result) s
  prompt_reply id name none s = reply_error out 32602 (ascii "unknown prompt: " ++ name) id s

  unfoldable pub handle_get_prompt : Frame → Session Value → Next Value
  unfolding with_body
  handle_get_prompt f s =
      let (body, s') = unwrapped f s in
      with_body out.serde.read_prompt_params
        (λ params t.
          prompt_reply f.header.request_id params.name
            (get_prompt params.name params.arguments t.shared.registry) t)
        body s'

  unfoldable pub subscription : Bool → ℕ → Text → Session Value → Session Value
  subscription is_sub id uri s =
      if is_sub && not (has_resource uri s.shared.registry)
      then reply_error out 32002 (ascii "resource not found: " ++ uri) id s
      else reply out subscribe_resource_result id (ascii "{}") (record s {
        subscribed = if is_sub then add uri s.subscribed else discard uri s.subscribed;
      })

  unfoldable pub handle_subscription : Bool → Frame → Session Value → Next Value
  unfolding with_body subscription
  handle_subscription is_sub f s =
      let (body, s') = unwrapped f s in
      with_body out.serde.read_subscribe
        (λ params t. subscription is_sub f.header.request_id params.uri t) body s'

  abbrev pub cancelled_by : Option CancelParams → Session Value → Session Value
  cancelled_by none s = s
  cancelled_by (some params) s = record s { cancelled = add params.request_id s.cancelled }

  abbrev pub cancel_body : Result Text (List ℕ) → Session Value → Next Value
  cancel_body (err e) s = failed s
  cancel_body (ok body) s = goes_on (cancelled_by (out.serde.read_cancel body) s)

  -- A notification: what cannot be read is ignored.
  unfoldable pub handle_cancel : Frame → Session Value → Next Value
  handle_cancel f s = let (body, s') = unwrapped f s in cancel_body body s'
