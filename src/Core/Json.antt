-- ===== src/Core/Json.antt =====
-- The trees of JSON documents, and what the derived readers of serde_json do with them. A number
-- with a fraction or beyond 64 bits is `real`, by the bits of its f64. Where an object
-- keeps a `Value`, the tree is kept as it is.
use ohmcp.Base.{
  ◌≡◌, refl, ap, ◌||◌, ◌&&◌, false, true, ◌==◌, ◌^◌, ℕ, zero, suc, Bool, if◌then◌else◌, List, [],
  ◌∷◌, Option, none, some, ltb, leb,
}
use ohmcp.Base.Bytes.{Text, text_eq}
use ohmcp.Base.Integers.{ℤ, pos, negsuc}

mutual
  pub data Json : Type 0 where
    null : Json
    boolean : Bool → Json
    number : ℤ → Json
    real : ℕ → Json
    string : Text → Json
    array : Elements → Json
    object : Members → Json

  pub data Elements : Type 0 where
    no_element : Elements
    and_element : Json → Elements → Elements

  pub data Members : Type 0 where
    no_member : Members
    and_member : Text → Json → Members → Members

infixl 5 ◌>>=◌
abbrev pub ◌>>=◌ : {A B : Type 0} → Option A → (A → Option B) → Option B
none >>= f = none
some a >>= f = f a

-- A member whose name comes twice is refused.
abbrev first_of : Json → Option (Option Json) → Option (Option Json)
first_of v (some none) = some (some v)
first_of v _ = none

unfoldable pub once : Text → Members → Option (Option Json)
once k no_member = some none
once k (and_member j v m) = let rest = once k m in if text_eq j k then first_of v rest else rest

abbrev nth : ℕ → Elements → Option Json
nth i no_element = none
nth zero (and_element v a) = some v
nth (suc i) (and_element v a) = nth i a

abbrev count : Elements → ℕ
count no_element = 0
count (and_element v a) = suc (count a)

-- A struct is read from an object, by the names of its fields, or from an array, by their places:
-- this is the value of the field of place i and name k, if there is one.
abbrev pub field : ℕ → Text → Json → Option (Option Json)
field i k (object m) = once k m
field i k (array a) = some (nth i a)
field i k _ = none

-- An array has no more elements than the struct has fields.
abbrev pub struct : ℕ → Json → Option (Unit {0})
struct n (object m) = some tt
struct n (array a) = if leb (count a) n then some tt else none
struct n _ = none

module _ {A : Type 0} (i : ℕ) (k : Text) (read : Json → Option A) where
  abbrev or_missing : Option Json → Option A
  or_missing none = none
  or_missing (some v) = read v

  abbrev or_default : A → Option Json → Option A
  or_default a none = some a
  or_default a (some v) = read v

  abbrev some_of : Option A → Option (Option A)
  some_of none = none
  some_of (some a) = some (some a)

  -- An `Option` reads null as none.
  abbrev or_none : Option Json → Option (Option A)
  or_none none = some none
  or_none (some null) = some none
  or_none (some v) = some_of (read v)

  -- A field that must be there; one with `#[serde(default)]`, whose default is a; and an `Option` with it.
  abbrev pub needed : Json → Option A
  needed v = field i k v >>= or_missing

  abbrev pub defaulted : A → Json → Option A
  defaulted a v = field i k v >>= or_default a

  abbrev pub optional : Json → Option (Option A)
  optional v = field i k v >>= or_none

abbrev pub read_text : Json → Option Text
read_text (string t) = some t
read_text _ = none

abbrev pub read_bool : Json → Option Bool
read_bool (boolean b) = some b
read_bool _ = none

abbrev pub read_value : Json → Option Json
read_value v = some v

abbrev pub read_u64 : Json → Option ℕ
read_u64 (number (pos n)) = if ltb n (2 ^ 64) then some n else none
read_u64 _ = none

abbrev pub read_i64 : Json → Option ℤ
read_i64 (number (pos n)) = if ltb n (2 ^ 63) then some (pos n) else none
read_i64 (number (negsuc n)) = if ltb n (2 ^ 63) then some (negsuc n) else none
read_i64 _ = none

module _ {A : Type 0} where
  unfoldable pub read_all : (Json → Option A) → Elements → Option (List A)
  read_all read no_element = some []
  read_all read (and_element v a) = read v >>= λ x. read_all read a >>= λ l. some (x ∷ l)

  abbrev pub read_vec : (Json → Option A) → Json → Option (List A)
  read_vec read (array a) = read_all read a
  read_vec read _ = none

  unfoldable pub elements : (A → Json) → List A → Elements
  elements write [] = no_element
  elements write (x ∷ l) = and_element (write x) (elements write l)

  -- A field that is written, and one with `skip_serializing_if = "Option::is_none"`.
  abbrev pub unless_none : Text → (A → Json) → Option A → Members → Members
  unless_none k write none m = m
  unless_none k write (some x) m = and_member k (write x) m

  -- `skip_serializing_if = "Vec::is_empty"`.
  abbrev pub unless_empty : Text → (A → Json) → List A → Members → Members
  unless_empty k write [] m = m
  unless_empty k write (x ∷ l) m = and_member k (array (elements write (x ∷ l))) m

abbrev pub kept : Json → Json
kept v = v

-- `Value::get` on an object, and the other questions to a value.
abbrev or_earlier : Option Json → Option Json → Option Json
or_earlier (some v) earlier = some v
or_earlier none earlier = earlier

abbrev last_of : Text → Members → Option Json
last_of k no_member = none
last_of k (and_member j v m) = or_earlier (last_of k m) (if text_eq j k then some v else none)

abbrev pub get : Text → Json → Option Json
get k (object m) = last_of k m
get k _ = none

abbrev before : Text → Text → Bool
before [] [] = false
before [] (b ∷ t) = true
before (a ∷ s) [] = false
before (a ∷ s) (b ∷ t) = let rest = before s t in ltb a b || (a == b && rest)

-- A map is sorted by the names, and a name that is inserted again has the new value.
abbrev put_member : Text → Json → Members → Members
put_member k v no_member = and_member k v no_member
put_member k v (and_member j w m) =
    let rest = put_member k v m in
    if text_eq k j
    then and_member k v m
    else if before k j
    then and_member k v (and_member j w m)
    else and_member j w rest

abbrev put_all : List (Text × Json) → Members → Members
put_all [] m = m
put_all ((k, v) ∷ l) m = put_all l (put_member k v m)

-- `json!` with an object.
abbrev pub json_object : List (Text × Json) → Json
json_object l = object (put_all l no_member)

-- `serde_json::to_value`: the tree of an object, with the members of each map in the map's order.
unfoldable mutual
  pub to_value : Json → Json
  to_value null = null
  to_value (boolean b) = boolean b
  to_value (number n) = number n
  to_value (real bits) = real bits
  to_value (string t) = string t
  to_value (array a) = array (value_elements a)
  to_value (object m) = object (value_members m no_member)

  pub value_elements : Elements → Elements
  value_elements no_element = no_element
  value_elements (and_element v a) = and_element (to_value v) (value_elements a)

  -- The members that were put in before, and these.
  pub value_members : Members → Members → Members
  value_members no_member done = done
  value_members (and_member k v m) done = value_members m (put_member k (to_value v) done)

-- The values of a list of objects.
pub value_elements-elements :
    {A : Type 0} (write : A → Json) (l : List A)
    → value_elements (elements write l) ≡ elements (λ x. to_value (write x)) l
unfolding value_elements elements
value_elements-elements write [] = refl
value_elements-elements write (x ∷ l) =
    ap (and_element (to_value (write x))) (value_elements-elements write l)
