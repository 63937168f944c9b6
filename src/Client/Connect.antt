-- ===== src/Client/Connect.antt =====
-- crates/ohmcp-client/src/lib.rs: `connect_inner`, from a connected stream on.
use ohmcp.Base.{
  ℕ, Bool, true, false, ◌&&◌, List, [], ◌∷◌, Option, none, some, ok, err, if◌then◌else◌, ltb, leb,
}
use ohmcp.Base.Bytes.{Text, ascii}
use ohmcp.Core.Message.{AuthParams, AuthResult, Implementation}
use ohmcp.Core.MsgType.{MsgType, auth, shm_setup, initialize}
use ohmcp.Core.Frame.{Frame}
use ohmcp.Security.Auth.{Primitives, hmac_response, derive_session_key, derive_fs_session_key}
use ohmcp.Security.Hex.{Outcome, panics, returns, hex, unhex32}
use ohmcp.Transport.Shm.{ShmRing, max_shm_cap, from_fd}
use ohmcp.Transport.Stream.{Write, send}
use ohmcp.Pipeline.{enable_encryption}
use ohmcp.Client.State.{
  Incoming, arrived, ended, broken, late, core, closed, waiting, json, auth_refused, io, panicked,
  Action, after, ◌>>=◌, ◌>>◌, pure, fail, or_fail, modify, ClientOutside,
}
use ohmcp.Client.Request.{Moment, request, sent_frame, unwrap_response}
use ohmcp.Core.Frame

-- What the outside answers while a client connects. A descriptor that is received is the ring that
-- the peer made; `none` is an error of the exchange, and `some none` the byte that declines.
pub record Greeting : Type 0 where
  pub nonce : List ℕ
  pub secret : List ℕ
  pub nonce_prefix : List ℕ
  pub auth_write : Write
  pub setup_write : Write
  pub down_fd : Option (Option ShmRing)
  pub up_fd : Option (Option ShmRing)
  pub map_down : Bool
  pub map_up : Bool
  pub init : Moment

abbrev pub read_incoming : List Incoming → Action Frame
read_incoming [] c = (err waiting, c)
read_incoming (late ∷ rest) c = (err waiting, record c { incoming = rest })
read_incoming (ended ∷ rest) c = (err closed, record c { incoming = rest })
read_incoming (broken e ∷ rest) c = (err (core e), record c { incoming = rest })
read_incoming (arrived f ∷ rest) c = (ok f, record c { incoming = rest })

-- `reader.next_frame().await?.ok_or_else(..)?`
unfoldable pub next_incoming : Action Frame
next_incoming c = read_incoming c.incoming c

abbrev pub login_params : Primitives → Text → List ℕ → List ℕ → List ℕ → AuthParams
login_params prim agent token nonce secret = record {
  agent_id = agent;
  token = hex (hmac_response prim token (hex nonce));
  nonce = some (hex nonce);
  eph_pub = some (hex (prim.public_key secret));
}

-- The server's public key, if it sent one.
abbrev pub server_public : Option Text → Outcome (Option (List ℕ))
server_public none = returns none
server_public (some s) = unhex32 s

unfoldable pub client_key : Primitives → List ℕ → List ℕ → Text → Option (List ℕ) → List ℕ
client_key prim secret token nonce (some peer) = derive_fs_session_key prim secret peer token nonce
client_key prim secret token nonce none = derive_session_key prim token nonce

abbrev pub ok_or_panic : Outcome (Option (List ℕ)) → Action (Option (List ℕ))
ok_or_panic panics c = (err panicked, c)
ok_or_panic (returns o) c = (ok o, c)

module _ {Value : Type 0} (out : ClientOutside Value) (g : Greeting) where
  abbrev pub send_plain : Write → MsgType → List ℕ → Action (Unit {0})
  send_plain w t payload c = sent_frame out g.init (send w (Frame.new t 0 payload) c.writer) c

  unfoldable pub accept_auth : List ℕ → AuthResult → Action (Unit {0})
  unfolding client_key
  accept_auth token result =
      if result.is_ok
      then (do
        peer ← ok_or_panic (server_public result.eph_pub)
        modify (λ c. record c {
          pipeline =
              enable_encryption g.nonce_prefix
                (client_key out.prim g.secret token (hex g.nonce) peer) c.pipeline;
        }))
      else fail (auth_refused result.reason)

  unfoldable pub authenticate : Text → List ℕ → Action (Unit {0})
  unfolding accept_auth next_incoming
  authenticate agent token = do
    send_plain g.auth_write auth
        (out.serde.write_auth (login_params out.prim agent token g.nonce g.secret))
    resp ← next_incoming
    result ← or_fail json (out.serde.read_auth_result resp.payload)
    accept_auth token result

  abbrev pub login : Text → Option (List ℕ) → Action (Unit {0})
  login agent none = pure tt
  login agent (some token) = authenticate agent token

  -- The members of the server's answer.
  abbrev pub is_true : Option Bool → Bool
  is_true none = false
  is_true (some b) = b

  abbrev pub or_zero : Option ℕ → ℕ
  or_zero none = 0
  or_zero (some n) = n

  abbrev pub then_read : {A : Type 0} → (Value → Option A) → Option Value → Option A
  then_read read none = none
  then_read read (some v) = read v

  abbrev pub answer_ok : Value → Bool
  answer_ok v = is_true (then_read out.serde.as_bool (out.serde.member (ascii "ok") v))

  abbrev pub answer_size : Text → Value → ℕ
  answer_size name v = or_zero (then_read out.serde.as_u64 (out.serde.member name v))

  -- A ring is mapped if the server agreed and sent a descriptor, and its size is possible.
  unfoldable pub map_ring : Bool → Bool → ℕ → Option ShmRing → Action (Option ShmRing)
  map_ring agreed maps size none c = (ok none, c)
  map_ring agreed maps size (some ring) c =
      if agreed && (ltb 0 size && leb size max_shm_cap)
      then after (or_fail io (from_fd maps ring size) c) (λ r. pure (some r))
      else (ok none, c)

  abbrev pub is_some : Option ShmRing → Bool
  is_some none = false
  is_some (some r) = true

  -- The second descriptor is read only if the first was none that declines.
  abbrev pub second_fd : Option ShmRing → Action (Option ShmRing)
  second_fd none = pure none
  second_fd (some d) = or_fail io g.up_fd

  unfoldable pub setup_shm : Action (Unit {0})
  unfolding map_ring next_incoming unwrap_response
  setup_shm = do
    send_plain g.setup_write shm_setup []
    down ← or_fail io g.down_fd
    up ← second_fd down
    resp ← next_incoming
    body ← unwrap_response out g.init resp
    v ← or_fail json (out.serde.read_value body)
    shm ← map_ring (answer_ok v) g.map_down (answer_size (ascii "size") v) down
    modify (λ c. record c { shm = shm })
    shm_up ← map_ring (is_some shm) g.map_up (answer_size (ascii "up_size") v) up
    modify (λ c. record c { shm_up = shm_up })

  abbrev pub maybe_setup : Bool → Action (Unit {0})
  maybe_setup true = setup_shm
  maybe_setup false = pure tt

  -- `env!("CARGO_PKG_VERSION")`, of Cargo.toml.
  abbrev client_info : Text → Implementation
  client_info agent = record { name = agent; version = ascii "0.1.0" }

  unfoldable pub connect_inner : Text → Option (List ℕ) → Bool → Action (Unit {0})
  unfolding authenticate setup_shm request
  connect_inner agent token use_shm = do
    login agent token
    maybe_setup use_shm
    resp ←
        request out g.init initialize (
          out.serde.write_initialize (ascii "2025-06-18") (client_info agent) (out.serde.object []))
    or_fail json (out.serde.read_initialize resp)
    pure tt
