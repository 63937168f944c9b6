-- ===== src/Exchange/Login.antt =====
-- The login: `authenticate` of the client, and the message `Auth` of the daemon.
use ohmcp.Client.State.{
  ◌>>=◌, after, json, Action, or_fail, OhmcpClient, ClientOutside, Incoming, arrived, new_client,
}
use ohmcp.Client.Request.{sent_frame}
use ohmcp.Base.{ℕ, true, ◌≡◌, refl, sym, ap, ◌∙◌, List, [], ◌∷◌, some, ok, length}
use ohmcp.Base.Bytes.{Text}
use ohmcp.Core.Message.{AuthParams, AuthResult}
use ohmcp.Core.MsgType.{auth, auth_result}
use ohmcp.Core.Frame.{Frame, encode}
use ohmcp.Security.Auth.{derive_fs_session_key}
use ohmcp.Security.Hex.{hex}
use ohmcp.Transport.Stream.{written, send, flush, queue, write_buf, new_writer}
use ohmcp.Pipeline.{enable_encryption}
use ohmcp.Pipeline.RoundTrip.{Agree, keyed}
use ohmcp.Client.Connect.{
  Greeting, authenticate, accept_auth, login_params, next_incoming, client_key,
}
use ohmcp.Server.Session.{Outside, Session, Answers, goes_on, queued}
use ohmcp.Server.Login.{handle_auth, admitted, auth_result_of}
use ohmcp.Server.Entry.{login, handle_auth-login, client_public_login}
use ohmcp.Core.Frame
use ohmcp.Pipeline

-- Both ends use the same libraries, and each reads what the other writes.
pub record Compatible {Value : Type 0} (out : Outside Value) (cout : ClientOutside Value)
    : Type 0 where
  pub same_prim : cout.prim ≡ out.prim
  pub same_lz4 : cout.lz4 ≡ out.lz4
  pub same_aead : cout.aead ≡ out.aead
  pub same_digest : cout.digest ≡ out.digest
  pub auth_read : (p : AuthParams) → out.serde.read_auth (cout.serde.write_auth p) ≡ some p
  pub result_read :
      (r : AuthResult) → cout.serde.read_auth_result (out.serde.write_auth_result r) ≡ some r

module _ {Value : Type 0} (out : Outside Value) (cout : ClientOutside Value) (a : Answers)
    (g : Greeting) (agent : Text) (token : List ℕ) where
  -- What the client sends first, and what the daemon answers.
  abbrev pub login_frame : Frame
  login_frame =
      Frame.new auth 0 (cout.serde.write_auth (login_params cout.prim agent token g.nonce g.secret))

  abbrev pub login_answer : Frame
  login_answer =
      Frame.new auth_result 0
        (out.serde.write_auth_result (auth_result_of out.prim true (some a.secret)))

  -- The key that the client derives.
  abbrev pub login_key : List ℕ
  login_key =
      derive_fs_session_key cout.prim g.secret (out.prim.public_key a.secret) token (hex g.nonce)

  abbrev pub logged_in : List Incoming → OhmcpClient
  logged_in rest = record (new_client rest) {
    writer = (send written login_frame new_writer).1;
    pipeline = enable_encryption g.nonce_prefix login_key Pipeline.new;
  }

  sent_login :
      send written login_frame new_writer ≡ (ok tt, (send written login_frame new_writer).1)
  unfolding send flush queue write_buf encode
  sent_login = refl

  accepted :
      Compatible out cout
      → (c : OhmcpClient)
      → accept_auth cout g token (auth_result_of out.prim true (some a.secret)) c
        ≡ (ok tt, record c { pipeline = enable_encryption g.nonce_prefix login_key c.pipeline })
  unfolding accept_auth client_key
  accepted k c = rw (client_public_login out.prim a.secret) refl

  -- After the login was sent.
  abbrev answered : Action (Unit {0})
  answered = do
    resp ← next_incoming
    result ← or_fail json (cout.serde.read_auth_result resp.payload)
    accept_auth cout g token result

  authenticate_login :
      Compatible out cout
      → g.auth_write ≡ written
      → (rest : List Incoming)
      → authenticate cout g agent token (new_client (arrived login_answer ∷ rest))
        ≡ (ok tt, logged_in rest)
  unfolding authenticate next_incoming Frame.new
  authenticate_login k w rest =
      let c = new_client (arrived login_answer ∷ rest) in
      let result = auth_result_of out.prim true (some a.secret) in
      let sent = record (new_client rest) { writer = (send written login_frame new_writer).1 } in
      ap (λ o. after (sent_frame cout g.init (send o login_frame c.writer) c) (λ _. answered)) w
      ∙ ap (λ r. after (sent_frame cout g.init r c) (λ _. answered)) sent_login
      ∙ ap (λ o. after (or_fail json o sent) (accept_auth cout g token)) (k.result_read result)
      ∙ accepted k sent

  -- A client and a daemon that know the same token admit each other: the daemon opens the session
  -- and queues the answer, the client that gets it has sent the login and nothing else, and both
  -- ends have the same key; if the client's write succeeds and each end reads what the other writes.
  pub authenticate-handle_auth :
      (s : Session Value) (rest : List Incoming)
      → Compatible out cout
      → g.auth_write ≡ written
      → s.shared.token ≡ some token
      → length a.nonce_prefix ≡ 4
      → length g.nonce_prefix ≡ 4
      → (t : Session Value) × (c : OhmcpClient) × (authenticate cout g agent token
            (new_client (arrived login_answer ∷ rest))
          ≡ (ok tt, c))
        × (c.writer.sent ≡ encode login_frame [])
        × (handle_auth out a 0 login_frame.payload s ≡ goes_on t)
        × (t.writer.buf ≡ encode login_answer s.writer.buf)
        × (t.authenticated ≡ true)
        × Agree t.pipeline.cipher c.pipeline.cipher
        × Agree c.pipeline.cipher t.pipeline.cipher
  unfolding send flush queue write_buf encode Frame.new
  authenticate-handle_auth s rest k w h la lg =
      let daemon_key =
        derive_fs_session_key out.prim g.secret (out.prim.public_key a.secret) token
          (hex g.nonce) in
      let t = admitted out a agent daemon_key (queued login_answer s) in
      let same : daemon_key ≡ login_key =
        ap
          (λ prim.
            derive_fs_session_key prim g.secret (out.prim.public_key a.secret) token (hex g.nonce))
          (sym k.same_prim) in
      let read =
        k.auth_read (login_params cout.prim agent token g.nonce g.secret)
        ∙ ap (λ prim. some (login prim agent token (hex g.nonce) g.secret)) k.same_prim in
      (
        t,
        logged_in rest,
        authenticate_login k w rest,
        refl,
        handle_auth-login out a 0 login_frame.payload agent token (hex g.nonce) g.secret s h read,
        refl,
        refl,
        keyed same la,
        keyed (sym same) lg,
      )
