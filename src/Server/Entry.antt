-- ===== src/Server/Entry.antt =====
-- crates/ohmcpd/src/server.rs: who gets in by `Auth`, and with which key.
use ohmcp.Transport.Stream.{queue}
use ohmcp.Server.Session.{returned, Outside, Session, Answers, goes_on, queued}
use ohmcp.Base.{
  Bool-cases, inl, inr, ℕ, Bool, true, false, ◌≡◌, refl, ◌∙◌, ap, arith, Option, none, some, List,
  [],
}
use ohmcp.Base.Bytes.{Text, text_eq_iff, ascii}
use ohmcp.Core.Message.{AuthParams}
use ohmcp.Core.MsgType.{auth_result}
use ohmcp.Security.Auth.{
  Primitives, hmac_response, verify_response, derive_fs_session_key, derive_fs_session_key_agree,
}
use ohmcp.Security.Hex.{Outcome, panics, returns, hex, unhex}
use ohmcp.Security.Hex.Laws.{unhex-hex}
use ohmcp.Server.Login.{
  handle_auth, handle_auth_params, answer_auth, admit, admitted, auth_ok, client_public,
  verify_unhexed, session_key, auth_result_of,
}
use ohmcp.Core.Frame.{Frame, encode}
use ohmcp.Core.Frame

-- What a client that knows the token sends: the response to its nonce, and its public key.
abbrev pub login : Primitives → Text → List ℕ → Text → List ℕ → AuthParams
login prim agent token nonce secret = record {
  agent_id = agent;
  token = hex (hmac_response prim token nonce);
  nonce = some nonce;
  eph_pub = some (hex (prim.public_key secret));
}

module _ (prim : Primitives) where
  auth_ok_login :
      (token : List ℕ) (nonce : Text)
      → auth_ok prim (some token) (some nonce) (hex (hmac_response prim token nonce)) ≡ returns true
  unfolding auth_ok hmac_response verify_response
  auth_ok_login token nonce =
      ap (verify_unhexed prim token nonce)
        (unhex-hex (hmac_response prim token nonce) (prim.hmac_bytes token nonce)).0
      ∙ ap returns ((text_eq_iff (prim.hmac token nonce) (prim.hmac token nonce)).1 refl)

  verify_unhexed-true :
      (token nonce : List ℕ) (o : Outcome (Option (List ℕ)))
      → verify_unhexed prim token nonce o ≡ returns true
      → o ≡ returns (some (hmac_response prim token nonce))
  unfolding verify_response hmac_response
  verify_unhexed-true token nonce panics e = ground arith
  verify_unhexed-true token nonce (returns none) e =
      ground (arith, text_eq_iff (prim.hmac token nonce) [], prim.hmac_length token nonce)
  verify_unhexed-true token nonce (returns (some r)) e =
      ground (arith, text_eq_iff (prim.hmac token nonce) r)

  abbrev pub Knows : Option (List ℕ) → AuthParams → Type 0
  Knows known params =
      (token : List ℕ) × (nonce : Text) × (known ≡ some token)
      × (params.nonce ≡ some nonce)
      × (unhex params.token ≡ returns (some (hmac_response prim token nonce)))

  auth_ok-true :
      (known : Option (List ℕ)) (challenge : Option Text) (response : Text)
      → auth_ok prim known challenge response ≡ returns true
      → (token : List ℕ) × (nonce : Text) × (known ≡ some token)
        × (challenge ≡ some nonce)
        × (unhex response ≡ returns (some (hmac_response prim token nonce)))
  unfolding auth_ok
  auth_ok-true none _ response e = ground arith
  auth_ok-true (some token) none response e = ground arith
  auth_ok-true (some token) (some nonce) response e =
      (token, nonce, refl, refl, verify_unhexed-true token nonce (unhex response) e)

  auth_ok_returns :
      (known : Option (List ℕ)) (challenge : Option Text) (text : Text) (response : Option (List ℕ))
      → unhex text ≡ returns response
      → (b : Bool) × (auth_ok prim known challenge text ≡ returns b)
  unfolding auth_ok
  auth_ok_returns none _ text response h = (false, refl)
  auth_ok_returns (some token) none text response h = (false, refl)
  auth_ok_returns (some token) (some nonce) text response h =
      (_, ap (verify_unhexed prim token nonce) h)

  -- Without that response the answer is no.
  auth_ok-false :
      (known : Option (List ℕ)) (params : AuthParams) (response : Option (List ℕ))
      → unhex params.token ≡ returns response
      → ¬ Knows known params
      → auth_ok prim known params.nonce params.token ≡ returns false
  auth_ok-false known params response h unknown =
      let (b, e) = auth_ok_returns known params.nonce params.token response h in
      elim (Bool-cases b) [
        | inl y ↦ absurd (unknown (auth_ok-true known params.nonce params.token (e ∙ ap returns y)))
        | inr n ↦ e ∙ ap returns n
      ]

  pub client_public_login :
      (secret : List ℕ)
      → client_public (some (hex (prim.public_key secret)))
        ≡ returns (some (prim.public_key secret))
  client_public_login secret =
      (unhex-hex (prim.public_key secret) (prim.public_bytes secret)).1
      ∙ rw (prim.public_length secret) refl

module _ {Value : Type 0} (out : Outside Value) where
  -- A login that is read as the response of a client that knows the token of the daemon, to a nonce
  -- of its own and with its public key, is admitted; and the session's key is the one that the
  -- client derives from its own secret and the public key that the answer carries.
  pub handle_auth-login :
      (a : Answers) (id : ℕ) (payload : List ℕ) (agent : Text) (token : List ℕ) (nonce : Text)
      (secret : List ℕ) (s : Session Value)
      → s.shared.token ≡ some token
      → out.serde.read_auth payload ≡ some (login out.prim agent token nonce secret)
      → handle_auth out a id payload s
        ≡ goes_on (
            admitted out a agent
              (derive_fs_session_key out.prim secret (out.prim.public_key a.secret) token nonce)
              (queued
                (Frame.new auth_result id
                  (out.serde.write_auth_result (auth_result_of out.prim true (some a.secret))))
                s))
  unfolding handle_auth answer_auth admit session_key
  handle_auth-login a id payload agent token nonce secret s h e =
      let params = login out.prim agent token nonce secret in
      let success =
        ap (λ t. auth_ok out.prim t (some nonce) params.token) h
        ∙ auth_ok_login out.prim token nonce in
      let peer = client_public_login out.prim secret in
      let t =
        queued
          (Frame.new auth_result id
            (out.serde.write_auth_result (auth_result_of out.prim true (some a.secret))))
          s in
      ap (λ o. handle_auth_params out a id o s) e
      ∙ (λ i. answer_auth out a params id (success i) (peer i) s)
      ∙ ap
          (λ known.
            admit out a params (some a.secret) (some (out.prim.public_key secret)) known
              (some nonce) t)
          h
      ∙ ap (λ key. goes_on (admitted out a agent key t))
          (derive_fs_session_key_agree out.prim a.secret secret token nonce)

  answer_auth_admits :
      (a : Answers) (params : AuthParams) (id : ℕ) (success : Outcome Bool)
      (peer : Outcome (Option (List ℕ))) (s t : Session Value)
      → answer_auth out a params id success peer s ≡ goes_on t
      → success ≡ returns true
  unfolding answer_auth
  answer_auth_admits a params id panics peer s t e = ground arith
  answer_auth_admits a params id (returns success) panics s t e = ground arith
  answer_auth_admits a params id (returns false) (returns peer) s t e = ground arith
  answer_auth_admits a params id (returns true) (returns peer) s t e = refl

  admits_params :
      (a : Answers) (id : ℕ) (o : Option AuthParams) (s t : Session Value)
      → handle_auth_params out a id o s ≡ goes_on t
      → (params : AuthParams) × (o ≡ some params) × Knows out.prim s.shared.token params
  admits_params a id none s t e = ground arith
  admits_params a id (some params) s t e = (
    params,
    refl,
    auth_ok-true out.prim s.shared.token params.nonce params.token
        (answer_auth_admits a params id _ (client_public params.eph_pub) s t e),
  )

  -- A login after which the session goes on held the response that the daemon's token gives to the
  -- nonce in it.
  pub handle_auth_admits :
      (a : Answers) (id : ℕ) (payload : List ℕ) (s t : Session Value)
      → handle_auth out a id payload s ≡ goes_on t
      → (params : AuthParams) × (out.serde.read_auth payload ≡ some params)
        × Knows out.prim s.shared.token params
  unfolding handle_auth
  handle_auth_admits a id payload s t e = admits_params a id (out.serde.read_auth payload) s t e

  -- The answer to a login that is refused.
  abbrev pub refusal : ℕ → Frame
  refusal id = Frame.new auth_result id (
      out.serde.write_auth_result (record {
        is_ok = false;
        session_key_b64 = none;
        reason = some (ascii "invalid token");
        eph_pub = none;
      }))

  -- A login that does not hold the response that the daemon's token gives to the nonce in it ends the
  -- session, which is not opened by it; the answer that names the reason is queued, but nothing has
  -- been sent to the client. The login could be read, and its texts have no character where they are
  -- cut.
  pub handle_auth_refused :
      (a : Answers) (id : ℕ) (payload : List ℕ) (s : Session Value) (params : AuthParams)
      (response peer : Option (List ℕ))
      → out.serde.read_auth payload ≡ some params
      → unhex params.token ≡ returns response
      → client_public params.eph_pub ≡ returns peer
      → ¬ Knows out.prim s.shared.token params
      → (t : Session Value) × (handle_auth out a id payload s ≡ returned t)
        × (t.writer.sent ≡ s.writer.sent)
        × (t.writer.buf ≡ encode (refusal id) s.writer.buf)
        × (t.authenticated ≡ s.authenticated)
        × (t.shared ≡ s.shared)
  unfolding handle_auth answer_auth queue
  handle_auth_refused a id payload s params response peer reads cut public_cut unknown =
      let wrong : auth_ok out.prim s.shared.token params.nonce params.token ≡ returns false =
        auth_ok-false out.prim s.shared.token params response cut unknown in
      (
        queued (refusal id) s,
        ap (λ o. handle_auth_params out a id o s) reads
            ∙ (λ i. answer_auth out a params id (wrong i) (public_cut i) s),
        refl,
        refl,
        refl,
        refl,
      )
