-- ===== src/Fixtures/Daemon.antt =====
-- Stand-ins for what a session of the daemon uses.
use ohmcp.Base.{
  ℕ, zero, suc, ◌+◌, ◌%◌, ◌≡◌, refl, ap, All, length, List, [], ◌∷◌, some, none, true, arith,
  if◌then◌else◌,
}
use ohmcp.Base.Bytes.{IsByte, ascii}
use ohmcp.Core.Message.{AuthParams, CallToolParams, CancelParams}
use ohmcp.Security.Auth.{Primitives}
use ohmcp.Transport.Shm.{Calls}
use ohmcp.Transport.Stream.{written}
use ohmcp.Server.Session.{Serde, Outside, Answers}
use ohmcp.Server.Entry.{login}
use ohmcp.Fixtures.{replicate, zeros, toy, run_lengths, stored_order}

-- Message authentication by the lengths of its parts, and a key exchange that agrees on nothing.
pub All-replicate : (n x : ℕ) → IsByte x → All IsByte (replicate n x)
All-replicate zero x p = tt
All-replicate (suc n) x p = (p, All-replicate n x p)

pub length-replicate : (n x : ℕ) → length (replicate n x) ≡ n
length-replicate zero x = refl
length-replicate (suc n) x = ap suc (length-replicate n x)

abbrev toy_hmac : List ℕ → List ℕ → List ℕ
toy_hmac token message = replicate 32 ((length token + length message) % 256)

abbrev toy_public : List ℕ → List ℕ
toy_public secret = replicate 32 (length secret % 256)

abbrev pub toy_primitives : Primitives
toy_primitives = record {
  hmac = toy_hmac;
  hmac_length = λ token message. length-replicate 32 ((length token + length message) % 256);
  hmac_bytes = λ token message. All-replicate 32 _ (omega arith);
  public_key = toy_public;
  public_length = λ secret. length-replicate 32 (length secret % 256);
  public_bytes = λ secret. All-replicate 32 _ (omega arith);
  diffie_hellman = λ secret peer. zeros;
  agreement = λ a b. refl;
}

-- Objects are read as the same few, and written as short texts; a value is a number.
abbrev pub toy_login : AuthParams
toy_login = login toy_primitives (ascii "agent") (ascii "token") (ascii "nonce") (ascii "secret")

abbrev pub toy_call : CallToolParams ℕ
toy_call = record { name = ascii "echo"; arguments = 5; meta = none }

abbrev pub toy_cancel : CancelParams
toy_cancel = record { request_id = 7; reason = none }

abbrev pub toy_serde : Serde ℕ
toy_serde = record {
  read_auth = λ b. some toy_login;
  read_resource_params = λ b. some (record { uri = b });
  read_prompt_params = λ b. some (record { name = b; arguments = 0 });
  read_subscribe = λ b. some (record { uri = b });
  read_cancel = λ b. some toy_cancel;
  read_call = λ b. some toy_call;
  write_auth_result = λ r. ascii "auth";
  write_error = λ e. e.message;
  write_initialize = λ r. ascii "initialize";
  write_tools = λ r. ascii "tools";
  write_resources = λ r. ascii "resources";
  write_contents = λ r. ascii "contents";
  write_prompts = λ r. ascii "prompts";
  write_prompt = λ r. ascii "prompt";
  write_updated = λ p. p.uri;
  write_progress = λ p. ascii "progress";
  write_call_result = λ r. ascii "result";
  to_vec = λ v. v ∷ [];
  object = λ m. 0;
  boolean = λ b. if b then 1 else 0;
  number = λ n. n;
  member = λ k v. none;
  as_bool = λ v. none;
}

abbrev pub toy_outside : Outside ℕ
toy_outside = record {
  serde = toy_serde;
  lz4 = run_lengths;
  aead = toy;
  prim = toy_primitives;
  walk = stored_order;
  digest = λ b. b;
}

abbrev calls_done : Calls
calls_done = record { memfd_create = true; ftruncate = true; mmap = true }

-- At a moment when every system call goes well.
abbrev pub well : ℕ → Answers
well now = record {
  now = now;
  secret = ascii "ephemeral";
  nonce_prefix = 1 ∷ 2 ∷ 3 ∷ 4 ∷ [];
  down = calls_done;
  up = calls_done;
  dup = true;
  first_send = true;
  second_send = true;
  joined = true;
  write = written;
}
