-- ===== src/Fixtures/Host.antt =====
-- Stand-ins for what a client of the daemon uses, and a wire format that both ends read.
use ohmcp.Fixtures.{stored_order, toy, run_lengths, replicate}
use ohmcp.Fixtures.Daemon.{toy_primitives, toy_serde, toy_outside}
use ohmcp.Transport.Stream.{written}
use ohmcp.Base.Bytes.{ascii, Text}
use ohmcp.Client.Connect.{Greeting}
use ohmcp.Client.State.{ClientOutside, ClientSerde}
use ohmcp.Server.Session.{Outside}
use ohmcp.Core.Message.{AuthResult, AuthParams}
use ohmcp.Exchange.Login.{Compatible}
use ohmcp.Base.{
  false, true, Bool, if◌then◌else◌, ℕ, zero, suc, ◌≡◌, refl, ap, length, List, [], ◌∷◌, ◌++◌, some,
  none, Option, take, drop, take_all, drop_all,
}

-- A text stands behind its length.
abbrev put : Text → List ℕ → List ℕ
put t rest = length t ∷ (t ++ rest)

unfoldable pub cut : List ℕ → Option (Text × List ℕ)
cut [] = none
cut (n ∷ l) = some (take n l, drop n l)

cut-put : (t : Text) (rest : List ℕ) → cut (put t rest) ≡ some (t, rest)
unfolding cut
cut-put t rest = rw (take_all t rest, drop_all t rest) refl

abbrev put_option : Option Text → List ℕ → List ℕ
put_option none rest = 0 ∷ rest
put_option (some t) rest = 1 ∷ put t rest

abbrev some_text : Option (Text × List ℕ) → Option (Option Text × List ℕ)
some_text none = none
some_text (some (t, rest)) = some (some t, rest)

unfoldable pub cut_option : List ℕ → Option (Option Text × List ℕ)
cut_option [] = none
cut_option (zero ∷ rest) = some (none, rest)
cut_option (suc n ∷ rest) = some_text (cut rest)

cut_option-put_option :
    (o : Option Text) (rest : List ℕ) → cut_option (put_option o rest) ≡ some (o, rest)
unfolding cut_option
cut_option-put_option none rest = refl
cut_option-put_option (some t) rest = ap some_text (cut-put t rest)

abbrev with_rest : {A B : Type 0} → Option (A × List ℕ) → (A → List ℕ → Option B) → Option B
with_rest none f = none
with_rest (some (a, rest)) f = f a rest

abbrev pub write_login : AuthParams → List ℕ
write_login p = put p.agent_id (put p.token (put_option p.nonce (put_option p.eph_pub [])))

abbrev pub read_login : List ℕ → Option AuthParams
read_login b = with_rest (cut b) (λ agent b1. with_rest (cut b1) (λ token b2.
    with_rest (cut_option b2) (λ nonce b3.
      with_rest (cut_option b3) (λ key b4.
        some (record { agent_id = agent; token = token; nonce = nonce; eph_pub = key })))))

pub read_login-write_login : (p : AuthParams) → read_login (write_login p) ≡ some p
read_login-write_login p =
    rw
      (
        cut-put p.agent_id (put p.token (put_option p.nonce (put_option p.eph_pub []))),
        cut-put p.token (put_option p.nonce (put_option p.eph_pub [])),
        cut_option-put_option p.nonce (put_option p.eph_pub []),
        cut_option-put_option p.eph_pub [],
      )
      refl

abbrev put_flag : Bool → List ℕ → List ℕ
put_flag b rest = (if b then 1 else 0) ∷ rest

abbrev cut_flag : List ℕ → Option (Bool × List ℕ)
cut_flag [] = none
cut_flag (zero ∷ rest) = some (false, rest)
cut_flag (suc n ∷ rest) = some (true, rest)

cut_flag-put_flag : (b : Bool) (rest : List ℕ) → cut_flag (put_flag b rest) ≡ some (b, rest)
cut_flag-put_flag true rest = refl
cut_flag-put_flag false rest = refl

abbrev pub write_answer : AuthResult → List ℕ
write_answer r =
    put_flag r.is_ok (put_option r.session_key_b64 (put_option r.reason (put_option r.eph_pub [])))

abbrev pub read_answer : List ℕ → Option AuthResult
read_answer b = with_rest (cut_flag b) (λ good b1. with_rest (cut_option b1) (λ key b2.
    with_rest (cut_option b2) (λ why b3. with_rest (cut_option b3) (λ eph b4.
      some (record { is_ok = good; session_key_b64 = key; reason = why; eph_pub = eph })))))

pub read_answer-write_answer : (r : AuthResult) → read_answer (write_answer r) ≡ some r
read_answer-write_answer r =
    rw
      (
        cut_flag-put_flag r.is_ok
            (put_option r.session_key_b64 (put_option r.reason (put_option r.eph_pub []))),
        cut_option-put_option r.session_key_b64 (put_option r.reason (put_option r.eph_pub [])),
        cut_option-put_option r.reason (put_option r.eph_pub []),
        cut_option-put_option r.eph_pub [],
      )
      refl

-- The daemon and the client with this format; the digest keeps its first 32 numbers.
abbrev digest32 : List ℕ → List ℕ
digest32 b = take 32 (b ++ replicate 32 0)

abbrev pub daemon_outside : Outside ℕ
daemon_outside = record toy_outside {
  serde = record toy_serde { read_auth = read_login; write_auth_result = write_answer };
  digest = digest32;
}

abbrev client_serde : ClientSerde ℕ
client_serde = record {
  write_auth = write_login;
  read_auth_result = read_answer;
  write_initialize = λ v i c. ascii "initialize";
  read_initialize = λ b. none;
  read_tools = λ b. none;
  read_call_result = λ b. none;
  read_resources = λ b. none;
  read_contents = λ b. none;
  read_prompts = λ b. none;
  read_prompt = λ b. none;
  read_progress = λ b. some (record { request_id = 3; progress = 1; total = none; message = none });
  read_updated = λ b. some (record { uri = b });
  write_cancel = λ p. p.request_id ∷ [];
  write_text = λ t. t;
  read_value = λ b. none;
  to_vec = λ v. v ∷ [];
  object = λ m. 0;
  string = λ t. length t;
  boolean = λ b. if b then 1 else 0;
  member = λ k v. none;
  as_bool = λ v. none;
  as_u64 = λ v. some v;
}

abbrev pub host_outside : ClientOutside ℕ
host_outside = record {
  serde = client_serde;
  lz4 = run_lengths;
  aead = toy;
  prim = toy_primitives;
  walk = stored_order;
  digest = digest32;
}

abbrev pub compatible : Compatible daemon_outside host_outside
compatible = record {
  same_prim = refl;
  same_lz4 = refl;
  same_aead = refl;
  same_digest = refl;
  auth_read = read_login-write_login;
  result_read = read_answer-write_answer;
}

-- A client that connects.
abbrev pub greeting : Greeting
greeting = record {
  nonce = ascii "nonce";
  secret = ascii "secret";
  nonce_prefix = 5 ∷ 6 ∷ 7 ∷ 8 ∷ [];
  auth_write = written;
  setup_write = written;
  down_fd = some none;
  up_fd = some none;
  map_down = true;
  map_up = true;
  init = record { now = 5; write = written };
}
