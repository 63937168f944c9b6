-- ===== src/Fixtures/Values.antt =====
-- Stand-ins for JSON values: an object is the list of its members.
use ohmcp.Base.{
  ap, List, Option, false, true, Bool, refl, ◌≡◌, ℕ, if◌then◌else◌, [], ◌∷◌, none, some, ok,
}
use ohmcp.Base.Bytes.{text_eq, Text}
use ohmcp.Base.Maps.{lookup}
use ohmcp.Base.Equality.{text_equality}
use ohmcp.Core.Rpc.{RpcJson, entries}

mutual
  pub data Toy : Type 0 where
    nothing : Toy
    numeral : ℕ → Toy
    letters : Text → Toy
    members : Members → Toy

  pub data Members : Type 0 where
    no_member : Members
    and_member : Text → Toy → Members → Members

abbrev find : Text → Members → Option Toy
find k no_member = none
find k (and_member j v m) = if text_eq j k then some v else find k m

abbrev of_list : List (Text × Toy) → Members
of_list [] = no_member
of_list ((k, v) ∷ m) = and_member k v (of_list m)

pub find-of_list : (k : Text) (m : List (Text × Toy)) → find k (of_list m) ≡ lookup k m
unfolding lookup
find-of_list k [] = refl
find-of_list k ((j, v) ∷ m) = ap (λ o. if text_eq j k then some v else o) (find-of_list k m)

abbrev toy_member : Text → Toy → Option Toy
toy_member k (members m) = find k m
toy_member k _ = none

abbrev toy_str : Toy → Option Text
toy_str (letters t) = some t
toy_str _ = none

abbrev toy_u64 : Toy → Option ℕ
toy_u64 (numeral n) = some n
toy_u64 _ = none

abbrev toy_is_null : Toy → Bool
toy_is_null nothing = true
toy_is_null _ = false

abbrev pub toy_json : RpcJson Toy
toy_json = record {
  member = toy_member;
  as_str = toy_str;
  as_u64 = toy_u64;
  null = nothing;
  is_null = toy_is_null;
  to_vec = λ v. 0 ∷ [];
  from_slice = λ b. ok (letters b);
  object = λ m. members (of_list (entries [] m));
  string = letters;
  number = numeral;
  member_object = λ k m. find-of_list k (entries [] m);
  reads_number = λ n h. refl;
  reads_string = λ t. refl;
  writes_some = λ v. refl;
}
