-- ===== src/Exchange/Codec.antt =====
-- `serde_json` for both ends, from the text of a tree: the attributes of
-- crates/ohmcp-core/src/message.rs say which tree an object is.
use ohmcp.Base.{
  ◌^◌, ◌≡◌, refl, ap, ◌∙◌, ◌&&◌, arith, ℕ, zero, suc, Bool, true, false, List, ◌++◌, Option, some,
  ltb,
}
use ohmcp.Base.Bytes.{Text, ascii}
use ohmcp.Base.Integers.{pos, negsuc}
use ohmcp.Core.Json.{
  ◌>>=◌, Json, Elements, Members, null, boolean, number, real, string, array, object, no_element,
  and_element, no_member, and_member, json_object, get, read_bool, read_u64,
}
use ohmcp.Core.Message.{AuthParams, AuthResult}
use ohmcp.Core.Message.ReadBack.{auth_params_lem, auth_result_lem}
use ohmcp.Server.Session.{Serde, Outside}
use ohmcp.Client.State.{ClientSerde, ClientOutside}
use ohmcp.Exchange.Login.{Compatible}
use ohmcp.Core.Message.Read
use ohmcp.Core.Message.Write

unfoldable mutual
  -- A tree whose numbers are integers of 64 bits, and that is no deeper than a document may be.
  pub exact : ℕ → Json → Bool
  exact d null = true
  exact d (boolean b) = true
  exact d (number (pos n)) = ltb n (2 ^ 64)
  exact d (number (negsuc n)) = ltb n (2 ^ 63)
  exact d (real bits) = false
  exact d (string t) = true
  exact zero (array a) = false
  exact (suc d) (array a) = exact_elements d a
  exact zero (object m) = false
  exact (suc d) (object m) = exact_members d m

  pub exact_elements : ℕ → Elements → Bool
  exact_elements d no_element = true
  exact_elements d (and_element v a) = exact d v && exact_elements d a

  pub exact_members : ℕ → Members → Bool
  exact_members d no_member = true
  exact_members d (and_member k v m) = exact d v && exact_members d m

-- The limit that serde_json has for the depth of a document.
abbrev pub depth_limit : ℕ
depth_limit = 127

abbrev pub call_tree : Text → Json → Json
call_tree name arguments =
    object
      (and_member (ascii "name") (string name) (and_member (ascii "arguments") arguments no_member))

-- The text of a tree, without blanks, and the tree of a text.
pub record Codec : Type 0 where
  pub print : Json → List ℕ
  pub parse : List ℕ → Option Json
  pub reads_back : (v : Json) → exact depth_limit v ≡ true → parse (print v) ≡ some v
  pub prints_object :
      (name : Text) (arguments : Json)
      → ascii "{\"name\":"
          ++ (print (string name) ++ (ascii ",\"arguments\":" ++ (print arguments ++ ascii "}")))
        ≡ print (call_tree name arguments)

module _ (codec : Codec) where
  abbrev pub from_slice : {A : Type 0} → (Json → Option A) → List ℕ → Option A
  from_slice read b = codec.parse b >>= read

  abbrev pub daemon_serde : Serde Json
  daemon_serde = record {
    read_auth = from_slice Read.auth_params;
    read_resource_params = from_slice Read.read_resource_params;
    read_prompt_params = from_slice Read.get_prompt_params;
    read_subscribe = from_slice Read.subscribe_resource_params;
    read_cancel = from_slice Read.cancel_params;
    read_call = from_slice Read.call_tool_params;
    write_auth_result = λ p. codec.print (Write.auth_result p);
    write_error = λ p. codec.print (Write.error_body p);
    write_initialize = λ p. codec.print (Write.initialize_result p);
    write_tools = λ p. codec.print (Write.list_tools_result p);
    write_resources = λ p. codec.print (Write.list_resources_result p);
    write_contents = λ p. codec.print (Write.read_resource_result p);
    write_prompts = λ p. codec.print (Write.list_prompts_result p);
    write_prompt = λ p. codec.print (Write.get_prompt_result p);
    write_updated = λ p. codec.print (Write.resource_updated_params p);
    write_progress = λ p. codec.print (Write.progress_params p);
    write_call_result = λ p. codec.print (Write.call_tool_result p);
    to_vec = codec.print;
    object = json_object;
    boolean = boolean;
    number = λ n. number (pos n);
    member = get;
    as_bool = read_bool;
  }

  abbrev pub host_serde : ClientSerde Json
  host_serde = record {
    write_auth = λ p. codec.print (Write.auth_params p);
    read_auth_result = from_slice Read.auth_result;
    write_initialize = λ version info capabilities. codec.print (
        Write.initialize_params
          (record { protocol_version = version; client_info = info; capabilities = capabilities }));
    read_initialize = from_slice Read.initialize_result;
    read_tools = from_slice Read.list_tools_result;
    read_call_result = from_slice Read.call_tool_result;
    read_resources = from_slice Read.list_resources_result;
    read_contents = from_slice Read.read_resource_result;
    read_prompts = from_slice Read.list_prompts_result;
    read_prompt = from_slice Read.get_prompt_result;
    read_progress = from_slice Read.progress_params;
    read_updated = from_slice Read.resource_updated_params;
    write_cancel = λ p. codec.print (Write.cancel_params p);
    write_text = λ t. codec.print (string t);
    read_value = codec.parse;
    to_vec = codec.print;
    object = json_object;
    string = string;
    boolean = boolean;
    member = get;
    as_bool = read_bool;
    as_u64 = read_u64;
  }

  -- Both ends with this codec.
  abbrev pub with_codec : Outside Json → Outside Json
  with_codec out = record out { serde = daemon_serde }

  abbrev pub host_of : Outside Json → ClientOutside Json
  host_of out = record {
    serde = host_serde;
    lz4 = out.lz4;
    aead = out.aead;
    prim = out.prim;
    walk = out.walk;
    digest = out.digest;
  }

  auth_params-exact : (p : AuthParams) → exact depth_limit (Write.auth_params p) ≡ true
  unfolding exact exact_members
  auth_params-exact p = ground arith

  auth_result-exact : (p : AuthResult) → exact depth_limit (Write.auth_result p) ≡ true
  unfolding exact exact_members
  auth_result-exact p = ground arith

  pub compatible : (out : Outside Json) → Compatible (with_codec out) (host_of out)
  compatible out = record {
    same_prim = refl;
    same_lz4 = refl;
    same_aead = refl;
    same_digest = refl;
    auth_read = λ p.
        ap (λ o. o >>= Read.auth_params)
          (codec.reads_back (Write.auth_params p) (auth_params-exact p))
        ∙ auth_params_lem p;
    result_read = λ p.
        ap (λ o. o >>= Read.auth_result)
          (codec.reads_back (Write.auth_result p) (auth_result-exact p))
        ∙ auth_result_lem p;
  }
