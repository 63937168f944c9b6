-- ===== src/Server/Promises.antt =====
-- crates/ohmcpd/src/server.rs: what the daemon promises of its sessions.
use ohmcp.Core.Frame.{FrameFlags, compressed_bit, Frame, shm_ref}
use ohmcp.Cache.Compress.{maybe_compress}
use ohmcp.Security.Crypto.{SessionCipher}
use ohmcp.Base.{
  inr, inl, sym, Bool-cases, ℕ, Bool, true, false, not, ◌≡◌, refl, ◌∙◌, arith, ok, Option, none,
  some, List, if◌then◌else◌, ap,
}
use ohmcp.Base.Bytes.{Text, ascii}
use ohmcp.Base.Integers.{minus}
use ohmcp.Core.MsgType.{MsgType, error}
use ohmcp.Security.Acl.{check}
use ohmcp.Pipeline.{PayloadPipeline, encryption_enabled, wrap, sealed_frame, seal_payload}
use ohmcp.Server.Tools.{ToolRegistry}
use ohmcp.Server.Session.{
  Outside, Session, Answers, Next, goes_on, failed, reply, reply_error, queued,
}
use ohmcp.Server.Reach.{Reachable, Reachable-Guarded}
use ohmcp.Server.Dispatch.{is_auth, handle_frame, dispatch, resolve_uplink, dispatch_resolved}
use ohmcp.Pipeline

module _ {Value : Type 0} (out : Outside Value) (registry : ToolRegistry Value) where
  -- In every session that the daemon comes to, if the daemon has a token, an agent that is
  -- authenticated has a session with a key.
  pub keyed_session :
      (at_start : Option (List ℕ)) (token : List ℕ) (s : Session Value)
      → Reachable out registry at_start s
      → s.shared.token ≡ some token
      → s.authenticated ≡ true
      → encryption_enabled s.pipeline ≡ true
  keyed_session at_start token s h p o =
      (Reachable-Guarded out registry at_start s h).keyed o token p

  -- In every session that the daemon comes to the access check lets the agent call every tool.
  pub never_denied :
      (token : Option (List ℕ)) (s : Session Value) (tool : Text)
      → Reachable out registry token s
      → check s.agent_id tool s.shared.acl ≡ ok tt
  unfolding check
  never_denied token s tool h = rw (Reachable-Guarded out registry token s h).allowed

  if_false : (b : Bool) (n m : Next Value) → b ≡ false → (if b then n else m) ≡ m
  if_false b n m e = rw e

  if_true : (b : Bool) (n m : Next Value) → b ≡ true → (if b then n else m) ≡ n
  if_true b n m e = rw e

  seal_payload_plain :
      (c : Option SessionCipher) (flags : FrameFlags) (t : MsgType) (id : ℕ) (body : List ℕ)
      → encryption_enabled (record { cipher = c; cache = (Pipeline.new).cache }) ≡ false
      → (seal_payload out.lz4 out.aead c flags t id body).2 ≡ c
  unfolding seal_payload
  seal_payload_plain none flags t id body e = refl
  seal_payload_plain (some c) flags t id body e = ground arith

  wrap_plain :
      (t : MsgType) (id : ℕ) (body : List ℕ) (p : PayloadPipeline)
      → encryption_enabled p ≡ false
      → (wrap out.lz4 out.aead t id body p).1 ≡ p
  unfolding wrap sealed_frame
  wrap_plain t id body p e =
      let (packed, flag) = maybe_compress out.lz4 body in
      ap (λ c. record p { cipher = c })
        (seal_payload_plain p.cipher (if flag then compressed_bit else 0) t id packed e)

  reply_plain :
      (t : MsgType) (id : ℕ) (body : List ℕ) (s : Session Value)
      → encryption_enabled s.pipeline ≡ false
      → reply out t id body s ≡ queued (wrap out.lz4 out.aead t id body s.pipeline).0 s
  unfolding reply
  reply_plain t id body s e =
      ap (λ p. queued (wrap out.lz4 out.aead t id body s.pipeline).0 (record s { pipeline = p }))
        (wrap_plain t id body s.pipeline e)

  resolve_none :
      (a : Answers) (f : Frame) (s : Session Value)
      → s.shm_up ≡ none
      → handle_frame out a f s ≡ (if shm_ref f.header.flags then failed s else dispatch out a f s)
  unfolding handle_frame resolve_uplink
  resolve_none a f s e =
      ap (λ r. dispatch_resolved out a (resolve_uplink f r) s) e
      ∙ elim (Bool-cases (shm_ref f.header.flags)) [
        | inl y ↦ rw y
        | inr y ↦ rw y (ap (λ r. dispatch out a f (record s { shm_up = r })) (sym e))
      ]

  -- Before the login, in every session that the daemon comes to, a frame that is no login changes
  -- nothing but the writer's buffer, which gets one error with the code -32001; a reference to shared
  -- memory ends the session.
  pub handle_frame_unauthenticated :
      (token : Option (List ℕ)) (a : Answers) (f : Frame) (s : Session Value)
      → Reachable out registry token s
      → s.authenticated ≡ false
      → is_auth f.header.msg_type ≡ false
      → handle_frame out a f s ≡ (
          if shm_ref f.header.flags
          then failed s
          else goes_on (
              queued
                (wrap out.lz4 out.aead error f.header.request_id
                  (out.serde.write_error (record {
                    code = minus 32001;
                    message = ascii "authentication required";
                    details = none;
                  }))
                  s.pipeline).0
                s))
  unfolding dispatch reply_error
  handle_frame_unauthenticated token a f s h u n =
      let c = (Reachable-Guarded out registry token s h).closed u in
      resolve_none a f s c.1
      ∙ ap (λ m. if shm_ref f.header.flags then failed s else m)
          (if_false (is_auth f.header.msg_type) _ _ n
            ∙ if_true (not s.authenticated) _ _ (ap not u)
            ∙ ap goes_on (reply_plain error f.header.request_id _ s c.0))
