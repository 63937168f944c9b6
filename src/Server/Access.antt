-- ===== src/Server/Access.antt =====
-- crates/ohmcpd/src/server.rs: what can be said of every session that the daemon comes to, whatever
-- frames and events it takes and whatever other sessions do meanwhile.
use ohmcp.Security.Acl.{ToolAcl, grant_all}
use ohmcp.Transport.Stream.{FrameWriter}
use ohmcp.Base.Equality.{beq_self, text_equality}
use ohmcp.Server.Keeping.{wrap_key, Keeps, After}
use ohmcp.Base.{
  subst, ℕ, Bool, true, false, not, ◌≡◌, refl, ◌∙◌, sym, arith, Option, none, some, List, [],
  if◌then◌else◌,
}
use ohmcp.Base.Bytes.{Text}
use ohmcp.Base.Maps.{contains, contains-add}
use ohmcp.Core.MsgType.{MsgType, error}
use ohmcp.Core.Frame.{Frame}
use ohmcp.Security.Hex.{Outcome, panics, returns}
use ohmcp.Pipeline.{encryption_enabled}
use ohmcp.Server.Session.{
  Outside, Session, Answers, Next, goes_on, returned, failed, panicked, reply, reply_error,
}
use ohmcp.Server.Turns.{handle_request-After}
use ohmcp.Server.Login.{handle_auth, answer_auth, admit, handle_auth_params}
use ohmcp.Server.Dispatch.{dispatch, is_auth}
use ohmcp.Core.Message.{AuthParams}

module _ {Value : Type 0} where
  -- Before the login nothing is open and there is no key; after it there is a key, if the daemon has
  -- a token; and the agent of a session is one that may call every tool.
  pub record Guarded (s : Session Value) : Type 0 where
    pub closed :
        s.authenticated ≡ false
        → (encryption_enabled s.pipeline ≡ false) × (s.shm_up ≡ none) × (s.subscribed ≡ [])
    pub keyed :
        s.authenticated ≡ true
        → (token : List ℕ) → s.shared.token ≡ some token
        → encryption_enabled s.pipeline ≡ true
    pub allowed : contains s.agent_id s.shared.acl.allow_all ≡ true

  pub Guarded-Keeps :
      (s t : Session Value) → Guarded s → s.authenticated ≡ true → Keeps s t → Guarded t
  Guarded-Keeps s t g is_open k = record {
    closed = λ e. ground (arith, k.same_flag);
    keyed = λ e token p. k.same_key ∙ g.keyed is_open token (sym k.same_token ∙ p);
    allowed =
        subst (λ (x : Text). contains x t.shared.acl.allow_all ≡ true) (sym k.same_agent)
          (subst (λ (c : ToolAcl). contains s.agent_id c.allow_all ≡ true) (sym k.same_acl)
            g.allowed);
  }

  Guarded-After :
      (s : Session Value) (n : Next Value)
      → Guarded s
      → s.authenticated ≡ true
      → After (Keeps s) n
      → After Guarded n
  Guarded-After s (goes_on t) g is_open k = Guarded-Keeps s t g is_open k
  Guarded-After s (returned t) g is_open k = Guarded-Keeps s t g is_open k
  Guarded-After s (failed t) g is_open k = Guarded-Keeps s t g is_open k
  Guarded-After s (panicked t) g is_open k = Guarded-Keeps s t g is_open k

  pub Guarded-if :
      (b : Bool) (n m : Next Value)
      → (b ≡ true → After Guarded n)
      → (b ≡ false → After Guarded m)
      → After Guarded (if b then n else m)
  Guarded-if true n m k l = k refl
  Guarded-if false n m k l = l refl

  pub Guarded-writer :
      (s : Session Value) (w : FrameWriter) → Guarded s → Guarded (record s { writer = w })
  Guarded-writer s w g = record { closed = g.closed; keyed = g.keyed; allowed = g.allowed }

  module _ (out : Outside Value) where
    pub Guarded-reply :
        (t : MsgType) (id : ℕ) (body : List ℕ) (s : Session Value)
        → Guarded s
        → Guarded (reply out t id body s)
    unfolding reply
    Guarded-reply t id body s g =
        let e = wrap_key out.lz4 out.aead t id body s.pipeline in
        record {
          closed = λ c. (e ∙ (g.closed c).0, (g.closed c).1, (g.closed c).2);
          keyed = λ o token p. e ∙ g.keyed o token p;
          allowed = g.allowed;
        }

    Guarded-admit :
        (a : Answers) (params : AuthParams) (eph peer token : Option (List ℕ)) (nonce : Option Text)
        (s : Session Value)
        → Guarded s
        → After Guarded (admit out a params eph peer token nonce s)
    unfolding admit grant_all
    Guarded-admit a params eph peer none _ s g = g
    Guarded-admit a params eph peer (some token) none s g = g
    Guarded-admit a params eph peer (some token) (some nonce) s g = record {
      closed = λ c. ground arith;
      keyed = λ o t p. refl;
      allowed = ground (
        arith,
        contains-add params.agent_id params.agent_id s.shared.acl.allow_all,
        beq_self params.agent_id,
      );
    }

    Guarded-answer :
        (a : Answers) (params : AuthParams) (id : ℕ) (success : Outcome Bool)
        (peer : Outcome (Option (List ℕ))) (s : Session Value)
        → Guarded s
        → After Guarded (answer_auth out a params id success peer s)
    unfolding answer_auth
    Guarded-answer a params id panics peer s g = g
    Guarded-answer a params id (returns success) panics s g = g
    Guarded-answer a params id (returns success) (returns peer) s g =
        Guarded-if success _ _
          (λ e. Guarded-admit a params _ peer s.shared.token params.nonce _ (Guarded-writer s _ g))
          (λ e. Guarded-writer s _ g)

    Guarded-auth :
        (a : Answers) (id : ℕ) (o : Option AuthParams) (s : Session Value)
        → Guarded s
        → After Guarded (handle_auth_params out a id o s)
    Guarded-auth a id none s g = g
    Guarded-auth a id (some params) s g = Guarded-answer a params id _ _ s g

    pub Guarded-dispatch :
        (a : Answers) (f : Frame) (s : Session Value)
        → Guarded s
        → After Guarded (dispatch out a f s)
    unfolding dispatch handle_auth reply_error
    Guarded-dispatch a f s g =
        Guarded-if (is_auth f.header.msg_type) _ _
          (λ e. Guarded-auth a f.header.request_id (out.serde.read_auth f.payload) s g)
          (λ e.
            Guarded-if (not s.authenticated) _ _
              (λ u. Guarded-reply error f.header.request_id _ s g)
              (λ u.
                Guarded-After s _ g (ground arith)
                  (handle_request-After out a f.header.msg_type f s)))
