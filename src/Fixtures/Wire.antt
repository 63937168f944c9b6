-- ===== src/Fixtures/Wire.antt =====
-- A stand-in for the text of JSON trees: numbers that a machine with a stack reads.
use ohmcp.Base.{
  inr, inl, Bool-cases, ◌∙◌, ap, ◌≡◌, refl, sym, ℕ, Bool, true, false, List, [], ◌∷◌, ◌++◌, Option,
  none, some, ◌==◌, if◌then◌else◌,
}
use ohmcp.Base.Bytes.{Text, ascii, text_eq, text_eq_iff}
use ohmcp.Base.Integers.{pos, negsuc}
use ohmcp.Core.Json.{
  Json, Elements, Members, null, boolean, number, real, string, array, object, no_element,
  and_element, no_member, and_member,
}
use ohmcp.Exchange.Codec.{Codec, call_tree}

abbrev Stack : Type 0
Stack = List Json

-- An operation may wait for the number that comes next; `name` has the characters of a name.
record Machine : Type 0 where
  waiting : Option (ℕ → Stack → Stack)
  name : Text
  stack : Stack

abbrev idle : Stack → Machine
idle st = record { waiting = none; name = []; stack = st }

abbrev snoc : Text → Json → Members → Members
snoc k v no_member = and_member k v no_member
snoc k v (and_member j w m) = and_member j w (snoc k v m)

abbrev put_element : Stack → Stack
put_element (v ∷ array a ∷ st) = array (and_element v a) ∷ st
put_element st = st

abbrev join_member : Stack → Stack
join_member (v ∷ string k ∷ object m ∷ st) = object (snoc k v m) ∷ st
join_member st = st

abbrev put_char : ℕ → Stack → Stack
put_char c (string t ∷ st) = string (c ∷ t) ∷ st
put_char c st = st

abbrev pushing : Json → Machine → Machine
pushing v s = record s { stack = v ∷ s.stack }

abbrev on_number : ℕ → Machine → Machine
on_number t s =
    if t == b'{'
    then pushing (object no_member) s
    else if t == b'}'
    then record s { stack = join_member s.stack }
    else if t == b','
    then record s { stack = join_member s.stack }
    else if t == b':'
    then record s { stack = string s.name ∷ s.stack; name = [] }
    else if t == b'"'
    then s
    else if t == 256
    then pushing null s
    else if t == 257
    then pushing (boolean false) s
    else if t == 258
    then pushing (boolean true) s
    else if t == 259
    then pushing (array no_element) s
    else if t == 260
    then record s { stack = put_element s.stack }
    else if t == 261
    then pushing (object no_member) s
    else if t == 262
    then pushing (string []) s
    else if t == 263
    then record s { waiting = some put_char }
    else if t == 264
    then record s { waiting = some (λ n st. number (pos n) ∷ st) }
    else if t == 265
    then record s { waiting = some (λ n st. number (negsuc n) ∷ st) }
    else if t == 266
    then record s { waiting = some (λ n st. real n ∷ st) }
    else record s { name = s.name ++ (t ∷ []) }

abbrev after_wait : Option (ℕ → Stack → Stack) → ℕ → Machine → Machine
after_wait none t s = on_number t s
after_wait (some f) t s = record s { waiting = none; stack = f t s.stack }

abbrev run : List ℕ → Machine → Machine
run [] s = s
run (t ∷ l) s = run l (after_wait s.waiting t s)

run-append : (l r : List ℕ) (s : Machine) → run (l ++ r) s ≡ run r (run l s)
run-append [] r s = refl
run-append (t ∷ l) r s = run-append l r (after_wait s.waiting t s)

abbrev letters : Text → List ℕ
letters [] = 262 ∷ []
letters (c ∷ t) = letters t ++ (263 ∷ c ∷ [])

run-letters : (t : Text) (st : Stack) → run (letters t) (idle st) ≡ idle (string t ∷ st)
run-letters [] st = refl
run-letters (c ∷ t) st =
    run-append (letters t) (263 ∷ c ∷ []) (idle st) ∙ ap (run (263 ∷ c ∷ [])) (run-letters t st)

abbrev name_of : Text → List ℕ
name_of k =
    if text_eq k (ascii "name")
    then ascii "\"name\":"
    else if text_eq k (ascii "arguments")
    then ascii "\"arguments\":"
    else letters k

run-name_of : (k : Text) (st : Stack) → run (name_of k) (idle st) ≡ idle (string k ∷ st)
run-name_of k st = elim (Bool-cases (text_eq k (ascii "name"))) [
  | inl e ↦ rw ((text_eq_iff k (ascii "name")).0 e) refl
  | inr e ↦ elim (Bool-cases (text_eq k (ascii "arguments"))) [
    | inl y ↦ rw ((text_eq_iff k (ascii "arguments")).0 y) refl
    | inr n ↦ rw (e, n) (run-letters k st)
  ]
]

abbrev digit : Bool → ℕ
digit false = 257
digit true = 258

unfoldable mutual
  pub print : Json → List ℕ
  print null = 256 ∷ []
  print (boolean b) = digit b ∷ []
  print (number (pos n)) = 264 ∷ n ∷ []
  print (number (negsuc n)) = 265 ∷ n ∷ []
  print (real n) = 266 ∷ n ∷ []
  print (string t) = letters t
  print (array a) = print_elements a
  print (object no_member) = 261 ∷ []
  print (object (and_member k v m)) = b'{' ∷ (name_of k ++ (print v ++ print_more m))

  print_elements : Elements → List ℕ
  print_elements no_element = 259 ∷ []
  print_elements (and_element v a) = print_elements a ++ (print v ++ (260 ∷ []))

  print_more : Members → List ℕ
  print_more no_member = b'}' ∷ []
  print_more (and_member k v m) = b',' ∷ (name_of k ++ (print v ++ print_more m))

-- The members that come after others.
abbrev after_members : Members → Members → Members
after_members acc no_member = acc
after_members acc (and_member k v m) = after_members (snoc k v acc) m

abbrev joined : Members → Members → Members
joined no_member m = m
joined (and_member k v a) m = and_member k v (joined a m)

joined-snoc :
    (a m : Members) (k : Text) (v : Json) → joined (snoc k v a) m ≡ joined a (and_member k v m)
joined-snoc no_member m k v = refl
joined-snoc (and_member j w a) m k v = ap (and_member j w) (joined-snoc a m k v)

joined-no_member : (a : Members) → joined a no_member ≡ a
joined-no_member no_member = refl
joined-no_member (and_member k v a) = ap (and_member k v) (joined-no_member a)

after_members-joined : (a m : Members) → after_members a m ≡ joined a m
after_members-joined a no_member = sym (joined-no_member a)
after_members-joined a (and_member k v m) =
    after_members-joined (snoc k v a) m ∙ joined-snoc a m k v

abbrev holding : Members → Text → Json → Stack → Machine
holding acc k v st = idle (v ∷ string k ∷ object acc ∷ st)

-- A member, and what comes after it.
run-member :
    (k : Text) (v : Json) (acc : Members) (value more : List ℕ) (st : Stack) (result : Machine)
    → run value (idle (string k ∷ object acc ∷ st)) ≡ holding acc k v st
    → run more (holding acc k v st) ≡ result
    → run (name_of k ++ (value ++ more)) (idle (object acc ∷ st)) ≡ result
run-member k v acc value more st result read rest =
    run-append (name_of k) (value ++ more) (idle (object acc ∷ st))
    ∙ ap (run (value ++ more)) (run-name_of k (object acc ∷ st))
    ∙ run-append value more (idle (string k ∷ object acc ∷ st))
    ∙ ap (run more) read
    ∙ rest

mutual
  unfolding print print_elements print_more

  run-print : (v : Json) (st : Stack) → run (print v) (idle st) ≡ idle (v ∷ st)
  run-print null st = refl
  run-print (boolean false) st = refl
  run-print (boolean true) st = refl
  run-print (number (pos n)) st = refl
  run-print (number (negsuc n)) st = refl
  run-print (real n) st = refl
  run-print (string t) st = run-letters t st
  run-print (array a) st = run-print_elements a st
  run-print (object no_member) st = refl
  run-print (object (and_member k v m)) st =
      run-member k v no_member (print v) (print_more m) st _
        (run-print v (string k ∷ object no_member ∷ st)) (run-print_more m k v no_member st)
      ∙ ap (λ x. idle (object x ∷ st)) (after_members-joined (and_member k v no_member) m)

  run-print_elements :
      (a : Elements) (st : Stack) → run (print_elements a) (idle st) ≡ idle (array a ∷ st)
  run-print_elements no_element st = refl
  run-print_elements (and_element v a) st =
      run-append (print_elements a) (print v ++ (260 ∷ [])) (idle st)
      ∙ ap (run (print v ++ (260 ∷ []))) (run-print_elements a st)
      ∙ run-append (print v) (260 ∷ []) (idle (array a ∷ st))
      ∙ ap (run (260 ∷ [])) (run-print v (array a ∷ st))

  run-print_more :
      (m : Members) (k : Text) (v : Json) (acc : Members) (st : Stack)
      → run (print_more m) (holding acc k v st)
        ≡ idle (object (after_members (snoc k v acc) m) ∷ st)
  run-print_more no_member k v acc st = refl
  run-print_more (and_member j w m) k v acc st =
      run-member j w (snoc k v acc) (print w) (print_more m) st _
        (run-print w (string j ∷ object (snoc k v acc) ∷ st))
        (run-print_more m j w (snoc k v acc) st)

abbrev top : Stack → Option Json
top [] = none
top (v ∷ st) = some v

unfoldable pub parse : List ℕ → Option Json
parse b = top (run b (idle [])).stack

pub parse-print : (v : Json) → parse (print v) ≡ some v
unfolding parse
parse-print v = ap (λ (s : Machine). top s.stack) (run-print v [])

pub prints_object_lem :
    (name : Text) (arguments : Json)
    → ascii "{\"name\":"
        ++ (print (string name) ++ (ascii ",\"arguments\":" ++ (print arguments ++ ascii "}")))
      ≡ print (call_tree name arguments)
unfolding print print_more
prints_object_lem name arguments = refl

abbrev pub toy_codec : Codec
toy_codec = record {
  print = print;
  parse = parse;
  reads_back = λ v h. parse-print v;
  prints_object = prints_object_lem;
}
