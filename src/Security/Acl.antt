-- ===== src/Security/Acl.antt =====
-- crates/ohmcp-security/src/acl.rs: which agent may call which tool.
use ohmcp.Base.{
  arith, [], List, some, none, Option, ◌&&◌, refl, ◌≡◌, err, ok, Result, if◌then◌else◌,
}
use ohmcp.Base.Bytes.{Text, text_eq, text_eq_iff}
use ohmcp.Base.Equality.{text_equality}
use ohmcp.Base.Maps.{lookup, insert, contains, add, lookup-insert, contains-add}
use ohmcp.Security.{SecurityError, access_denied}

pub record ToolAcl : Type 0 where
  pub grants : List (Text × List Text)
  pub allow_all : List Text

abbrev pub new : ToolAcl
new = record { grants = []; allow_all = [] }

-- The tools of an agent; an entry that lacks is the empty set.
abbrev pub granted : Option (List Text) → List Text
granted none = []
granted (some s) = s

unfoldable pub grant : Text → Text → ToolAcl → ToolAcl
grant agent_id tool acl = record acl {
  grants = insert agent_id (add tool (granted (lookup agent_id acl.grants))) acl.grants;
}

unfoldable pub grant_all : Text → ToolAcl → ToolAcl
grant_all agent_id acl = record acl { allow_all = add agent_id acl.allow_all }

unfoldable pub check : Text → Text → ToolAcl → Result SecurityError (Unit {0})
check agent_id tool acl =
    if contains agent_id acl.allow_all
    then ok tt
    else if contains tool (granted (lookup agent_id acl.grants))
    then ok tt
    else err (access_denied tool)

granted-insert :
    (acl : ToolAcl) (a b : Text) (s : List Text)
    → granted (lookup b (insert a s acl.grants))
      ≡ (if text_eq a b then s else granted (lookup b acl.grants))
granted-insert acl a b s = ground (arith, lookup-insert a b s acl.grants)

-- A grant of one tool changes the answer for that agent and that tool to yes, and no other answer.
pub check-grant :
    (a t b u : Text) (acl : ToolAcl)
    → check b u (grant a t acl) ≡ (if text_eq a b && text_eq t u then ok tt else check b u acl)
unfolding check grant
check-grant a t b u acl = ground (
  arith,
  text_eq_iff a b,
  granted-insert acl a b (add t (granted (lookup a acl.grants))),
  contains-add t u (granted (lookup a acl.grants)),
)

-- A grant of all tools changes every answer for that agent to yes, and no other answer.
pub check-grant_all :
    (a b u : Text) (acl : ToolAcl)
    → check b u (grant_all a acl) ≡ (if text_eq a b then ok tt else check b u acl)
unfolding check grant_all
check-grant_all a b u acl = ground (arith, contains-add a b acl.allow_all)

-- With no grant at all every call is refused, and the error names the tool.
pub check-new : (a t : Text) → check a t new ≡ err (access_denied t)
unfolding check contains lookup
check-new a t = refl
