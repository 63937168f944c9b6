-- ===== src/Tests/ServerRuns.antt =====
-- The sessions of the daemon.
use ohmcp.Server.Accept.Limit.{
  run_with-last_events, run_with-connects, last_events, daemon, connected,
}
use ohmcp.Server.Accept.{happens, run_with, ServerConfig, connects, shuts_down, stopped, listening}
use ohmcp.Base.{
  arith, ap, sym, ◌∙◌, List, Option, ◌≤◌, ◌≡◌, refl, true, false, none, some, ok, [], ℕ, ◌∷◌,
}
use ohmcp.Server.Session.{
  returned, reply_error, queued, Session, goes_on, session_at_start, shared_at_start,
}
use ohmcp.Security.Hex.Laws.{unhex-hex}
use ohmcp.Security.Hex.{Outcome, returns, unhex}
use ohmcp.Security.Auth.{hmac_response, derive_fs_session_key}
use ohmcp.Server.Login.{auth_result_of, admitted, handle_auth}
use ohmcp.Server.Entry.{
  refusal, client_public_login, handle_auth_refused, Knows, handle_auth-login, handle_auth_admits,
}
use ohmcp.Pipeline.{open_body, unseal_payload, wrap, unwrap, frame_of, encryption_enabled}
use ohmcp.Base.Maps.{contains}
use ohmcp.Server.Handlers.{handle_cancel}
use ohmcp.Server.Tools.{
  call, is_cacheable, has_resource, ToolRegistry, register, text_result, register_resource,
}
use ohmcp.Cache.Compress.{maybe_decompress}
use ohmcp.Core.MsgType.{error, auth_result, auth, call_tool, cancel, list_tools}
use ohmcp.Base.Equality.{text_equality, nat_eq}
use ohmcp.Server.Dispatch.{step, resolve_uplink, dispatch, handle_frame, frame}
use ohmcp.Security.Acl.{check}
use ohmcp.Core.Message.{AuthParams}
use ohmcp.Base.Bytes.{ascii}
use ohmcp.Server.Reach.{start, turn}
use ohmcp.Server.Promises.{keyed_session, never_denied, handle_frame_unauthenticated}
use ohmcp.Server.Answered.{handle_call-handle_cancel}
use ohmcp.Server.Calls.{handle_call}
use ohmcp.Fixtures.Daemon.{toy_login, toy_outside, toy_cancel, well}
use ohmcp.Core.Frame.{encode}
use ohmcp.Core.Frame
use ohmcp.Server.Tools

abbrev registry : ToolRegistry ℕ
registry =
    register_resource (ascii "uri") (ascii "a name") (ascii "text/plain") (ascii "body")
      (register (ascii "echo") (ascii "says it") 0 true (λ v. text_result (ascii "5")) Tools.new)

abbrev open_session : Session ℕ
open_session = session_at_start (shared_at_start registry none)

abbrev locked_session : Session ℕ
locked_session = session_at_start (shared_at_start registry (some (ascii "token")))

never_denied_example : check (ascii "anonymous") (ascii "echo") open_session.shared.acl ≡ ok tt
never_denied_example = never_denied toy_outside registry none open_session (ascii "echo") start

handle_frame_unauthenticated_example :
    handle_frame toy_outside (well 5) (frame_of 0 list_tools 3 []) locked_session
    ≡ goes_on (
        queued
          (wrap toy_outside.lz4 toy_outside.aead error 3
            (ascii "authentication required")
            locked_session.pipeline).0
          locked_session)
handle_frame_unauthenticated_example =
    handle_frame_unauthenticated toy_outside registry (some (ascii "token")) (well 5)
      (frame_of 0 list_tools 3 []) locked_session start refl refl

abbrev admitted_session : Session ℕ
admitted_session =
    admitted toy_outside (well 5) (ascii "agent")
      (derive_fs_session_key toy_outside.prim (ascii "secret")
        (toy_outside.prim.public_key (well 5).secret) (ascii "token") (ascii "nonce"))
      (queued
        (Frame.new auth_result 1 (
          toy_outside.serde.write_auth_result
            (auth_result_of toy_outside.prim true (some (well 5).secret))))
        locked_session)

first_login :
    handle_auth toy_outside (well 5) 1 (ascii "{}") locked_session ≡ goes_on admitted_session
first_login =
    handle_auth-login toy_outside (well 5) 1 (ascii "{}") (ascii "agent") (ascii "token")
      (ascii "nonce") (ascii "secret") locked_session refl refl

handle_auth_admits_example :
    (params : AuthParams) × (toy_outside.serde.read_auth (ascii "{}") ≡ some params)
    × Knows toy_outside.prim (some (ascii "token")) params
handle_auth_admits_example =
    handle_auth_admits toy_outside (well 5) 1 (ascii "{}") locked_session admitted_session
      first_login

first_turn :
    step toy_outside (frame (well 5) (frame_of 0 auth 1 (ascii "{}"))) locked_session
    ≡ goes_on admitted_session
unfolding step handle_frame dispatch resolve_uplink
first_turn = first_login

keyed_session_example : encryption_enabled admitted_session.pipeline ≡ true
keyed_session_example =
    keyed_session toy_outside registry (some (ascii "token")) (ascii "token") admitted_session
      (turn (frame (well 5) (frame_of 0 auth 1 (ascii "{}"))) start first_turn) refl refl

handle_call-handle_cancel_example :
    (t : Session ℕ) × (u : Session ℕ) × (handle_cancel toy_outside
        (well 5)
        (frame_of 0 cancel 0 [])
        open_session
      ≡ goes_on t)
    × (handle_call toy_outside (well 6) (frame_of 0 call_tool 7 []) t
        ≡ goes_on (reply_error toy_outside 32800 (ascii "request cancelled") 7 u))
    × (u.writer ≡ open_session.writer)
    × (u.shm ≡ open_session.shm)
    × (u.shared ≡ open_session.shared)
    × (u.delivered ≡ open_session.delivered)
    × (contains 7 u.cancelled ≡ false)
unfolding unwrap unseal_payload maybe_decompress open_body
handle_call-handle_cancel_example =
    handle_call-handle_cancel toy_outside (well 5) (well 6) (frame_of 0 cancel 0 [])
      (frame_of 0 call_tool 7 []) open_session [] toy_cancel refl refl refl

-- A daemon with another token refuses the login.
abbrev other_session : Session ℕ
other_session = session_at_start (shared_at_start registry (some (ascii "another")))

-- The client knows the token of the first daemon.
abbrev first_byte : Outcome (Option (List ℕ)) → ℕ
first_byte (returns (some (b ∷ rest))) = b
first_byte _ = 0

abbrev response : List ℕ
response = hmac_response toy_outside.prim (ascii "token") (ascii "nonce")

response_read : unhex toy_login.token ≡ returns (some response)
unfolding hmac_response
response_read = (unhex-hex response (toy_outside.prim.hmac_bytes (ascii "token") (ascii "nonce"))).0

unknown_token : ¬ Knows toy_outside.prim (some (ascii "another")) toy_login
unfolding hmac_response
unknown_token (token, nonce, known, challenge, read) =
    let own : ascii "another" ≡ token = cc known in
    let theirs : ascii "nonce" ≡ nonce = cc challenge in
    let same : returns (some response)
        ≡ returns (some (hmac_response toy_outside.prim (ascii "another") (ascii "nonce"))) =
      sym response_read
      ∙ read
      ∙ (λ i. returns (some (hmac_response toy_outside.prim (sym own i) (sym theirs i)))) in
    omega (arith, ap first_byte same)

handle_auth_refused_example :
    (t : Session ℕ) × (handle_auth toy_outside (well 5) 1 (ascii "{}") other_session ≡ returned t)
    × (t.writer.sent ≡ [])
    × (t.writer.buf ≡ encode (refusal toy_outside 1) [])
    × (t.authenticated ≡ false)
    × (t.shared ≡ other_session.shared)
handle_auth_refused_example =
    handle_auth_refused toy_outside (well 5) 1 (ascii "{}") other_session toy_login (some response)
      (some (toy_outside.prim.public_key (ascii "secret"))) refl response_read
      (client_public_login toy_outside.prim (ascii "secret")) unknown_token

-- Two connections to a daemon that has room for one; the shutdown, with the session still there.
abbrev one_connection : ServerConfig
one_connection = record { max_connections = 1; shutdown_grace = 5 }

run_with-connects_example :
    ((daemon one_connection (connects ∷ connects ∷ [])).running ≤ 1)
    × (happens connects (daemon one_connection (connects ∷ connects ∷ []))
        ≡ connected one_connection listening (daemon one_connection (connects ∷ connects ∷ [])))
unfolding run_with happens
run_with-connects_example = run_with-connects one_connection (connects ∷ connects ∷ [])

run_with-last_events_example :
    (run_with (shuts_down ∷ last_events 1) (daemon one_connection (connects ∷ []))).phase
    ≡ stopped true
unfolding run_with happens
run_with-last_events_example = run_with-last_events one_connection (connects ∷ []) 1 refl
