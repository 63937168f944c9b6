-- ===== src/Server/Login.antt =====
-- crates/ohmcpd/src/server.rs: the message `Auth`.
use ohmcp.Base.{ℕ, Bool, true, false, ◌&&◌, List, [], Option, none, some, if◌then◌else◌}
use ohmcp.Base.Bytes.{Text, ascii}
use ohmcp.Core.Message.{AuthParams, AuthResult}
use ohmcp.Core.MsgType.{auth_result}
use ohmcp.Security.Acl.{grant_all}
use ohmcp.Security.Auth.{Primitives, verify_response, derive_session_key, derive_fs_session_key}
use ohmcp.Security.Hex.{Outcome, panics, returns, hex, unhex, unhex32}
use ohmcp.Pipeline.{enable_encryption}
use ohmcp.Server.Session.{
  Outside, Session, Answers, Next, goes_on, returned, failed, panicked, queued,
}
use ohmcp.Core.Frame

abbrev pub unwrap_or_empty : Option (List ℕ) → List ℕ
unwrap_or_empty none = []
unwrap_or_empty (some r) = r

abbrev pub is_some : {A : Type 0} → Option A → Bool
is_some none = false
is_some (some a) = true

module _ (prim : Primitives) where
  abbrev pub verify_unhexed : List ℕ → Text → Outcome (Option (List ℕ)) → Outcome Bool
  verify_unhexed token nonce panics = panics
  verify_unhexed token nonce (returns r) =
      returns (verify_response prim token nonce (unwrap_or_empty r))

  -- The text that the client sent is compared with the response to its nonce.
  unfoldable pub auth_ok : Option (List ℕ) → Option Text → Text → Outcome Bool
  auth_ok (some token) (some nonce) response = verify_unhexed token nonce (unhex response)
  auth_ok (some token) none response = returns false
  auth_ok none _ response = returns false

  unfoldable pub session_key : Option (List ℕ) → Option (List ℕ) → List ℕ → List ℕ → List ℕ
  session_key (some secret) (some peer) token nonce =
      derive_fs_session_key prim secret peer token nonce
  session_key (some secret) none token nonce = derive_session_key prim token nonce
  session_key none peer token nonce = derive_session_key prim token nonce

-- `params.eph_pub.as_deref().and_then(unhex32)`
abbrev pub client_public : Option Text → Outcome (Option (List ℕ))
client_public none = returns none
client_public (some s) = unhex32 s

abbrev pub public_text : Primitives → Option (List ℕ) → Option Text
public_text prim none = none
public_text prim (some secret) = some (hex (prim.public_key secret))

abbrev pub auth_result_of : Primitives → Bool → Option (List ℕ) → AuthResult
auth_result_of prim success eph = record {
  is_ok = success;
  session_key_b64 = none;
  reason = if success then none else some (ascii "invalid token");
  eph_pub = public_text prim eph;
}

module _ {Value : Type 0} (out : Outside Value) (a : Answers) where
  abbrev pub admitted : Text → List ℕ → Session Value → Session Value
  admitted agent key s = record s {
    authenticated = true;
    agent_id = agent;
    pipeline = enable_encryption a.nonce_prefix key s.pipeline;
    shared = record s.shared { acl = grant_all agent s.shared.acl };
  }

  -- The session is opened with a key. `unwrap` panics on what lacks.
  unfoldable pub admit :
      AuthParams
      → Option (List ℕ)
      → Option (List ℕ)
      → Option (List ℕ)
      → Option Text
      → Session Value
      → Next Value
  admit params eph peer (some token) (some nonce) s =
      goes_on (admitted params.agent_id (session_key out.prim eph peer token nonce) s)
  admit params eph peer (some token) none s = panicked s
  admit params eph peer none _ s = panicked s

  -- After the two texts were read.
  unfoldable pub answer_auth :
      AuthParams → ℕ → Outcome Bool → Outcome (Option (List ℕ)) → Session Value → Next Value
  unfolding admit
  answer_auth params id panics peer s = panicked s
  answer_auth params id (returns success) panics s = panicked s
  answer_auth params id (returns success) (returns peer) s =
      let eph = if success && is_some peer then some a.secret else none in
      let s' =
        queued
          (Frame.new auth_result id
            (out.serde.write_auth_result (auth_result_of out.prim success eph)))
          s in
      if success then admit params eph peer s.shared.token params.nonce s' else returned s'

  abbrev pub handle_auth_params : ℕ → Option AuthParams → Session Value → Next Value
  handle_auth_params id none s = failed s
  handle_auth_params id (some params) s =
      answer_auth params id (auth_ok out.prim s.shared.token params.nonce params.token)
        (client_public params.eph_pub) s

  unfoldable pub handle_auth : ℕ → List ℕ → Session Value → Next Value
  unfolding answer_auth
  handle_auth id payload s = handle_auth_params id (out.serde.read_auth payload) s
