-- ===== src/Exchange/Exact.antt =====
-- Which trees a codec reads back.
use ohmcp.Base.{◌≡◌, refl, arith, ℕ, zero, suc, true, List, [], ◌∷◌}
use ohmcp.Base.Integers.{pos, negsuc}
use ohmcp.Core.Json.{
  Json, Elements, Members, null, boolean, number, real, string, array, object, no_element,
  and_element, no_member, and_member, elements, to_value, value_members, value_elements,
}
use ohmcp.Core.Message.{ContentBlock, text, image, CallToolResult}
use ohmcp.Exchange.Codec.{exact, exact_elements, exact_members}
use ohmcp.Core.Message.Write

mutual
  unfolding exact exact_elements exact_members

  -- More depth does no harm.
  pub exact-suc : (d : ℕ) (v : Json) → exact d v ≡ true → exact (suc d) v ≡ true
  exact-suc d null h = h
  exact-suc d (boolean b) h = h
  exact-suc d (number (pos n)) h = h
  exact-suc d (number (negsuc n)) h = h
  exact-suc d (real bits) h = h
  exact-suc d (string t) h = h
  exact-suc zero (array a) h = ground arith
  exact-suc (suc d) (array a) h = exact_elements-suc d a h
  exact-suc zero (object m) h = ground arith
  exact-suc (suc d) (object m) h = exact_members-suc d m h

  exact_elements-suc :
      (d : ℕ) (a : Elements) → exact_elements d a ≡ true → exact_elements (suc d) a ≡ true
  exact_elements-suc d no_element h = h
  exact_elements-suc d (and_element v a) h = ground (arith, exact-suc d v, exact_elements-suc d a)

  exact_members-suc :
      (d : ℕ) (m : Members) → exact_members d m ≡ true → exact_members (suc d) m ≡ true
  exact_members-suc d no_member h = h
  exact_members-suc d (and_member k v m) h = ground (arith, exact-suc d v, exact_members-suc d m)

blocks-exact :
    (d : ℕ) (l : List ContentBlock) → exact_elements (suc d) (elements Write.content_block l) ≡ true
unfolding exact exact_elements exact_members elements
blocks-exact d [] = refl
blocks-exact d (text t ∷ l) = blocks-exact d l
blocks-exact d (image b t ∷ l) = blocks-exact d l

pub call_tool_result-exact :
    (d : ℕ) (r : CallToolResult) → exact (suc (suc (suc d))) (Write.call_tool_result r) ≡ true
unfolding exact exact_elements exact_members
call_tool_result-exact d r = rw (blocks-exact d r.content) refl

-- So does what `to_value` makes of a result.
value_blocks-exact :
    (d : ℕ) (l : List ContentBlock)
    → exact_elements (suc d) (value_elements (elements Write.content_block l)) ≡ true
unfolding exact exact_elements exact_members elements value_elements
value_blocks-exact d [] = refl
value_blocks-exact d (text t ∷ l) = value_blocks-exact d l
value_blocks-exact d (image b t ∷ l) = value_blocks-exact d l

pub result_value-exact :
    (d : ℕ) (r : CallToolResult)
    → exact (suc (suc (suc d))) (to_value (Write.call_tool_result r)) ≡ true
unfolding exact exact_elements exact_members to_value value_members value_elements
result_value-exact d r = rw (value_blocks-exact d r.content) refl
