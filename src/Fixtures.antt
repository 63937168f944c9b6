-- ===== src/Fixtures.antt =====
-- Concrete stand-ins for the parameters of the model, which show that what is asked of them can be
-- met. They are simple functions with the shape of the real ones, and no more.
pub mod Daemon
pub mod Host
pub mod Values
pub mod Wire
use ohmcp.Server.Entry.{login}
use ohmcp.Transport.Stream.{written}
use ohmcp.Base.Bytes.{IsByte, Text, ascii, text_eq, text_eq_iff}
use ohmcp.Core.Message.{CancelParams, CallToolParams, AuthParams}
use ohmcp.Server.Session.{Outside, Serde, Answers}
use ohmcp.Security.Auth.{Primitives}
use ohmcp.Transport.Shm.{Calls}
use ohmcp.Base.{
  ◌%◌, ◌∙◌, sym, take-append_le, take-append-drop, arith, ◌++◌, ◌∷◌, [], List, ◌&&◌, true, Bool,
  inr, inl, ap, refl, ◌≡◌, ◌-◌, ◌+◌, suc, zero, ℕ, drop_all, take_all, length-take, length-append,
  All, drop, take, length, Bool-cases, ◌==◌, Option, none, some, Result, ok, err, if◌then◌else◌,
}
use ohmcp.Cache.Compress.{Lz4}
use ohmcp.Cache.ResultCache.{Walk, Entries}
use ohmcp.Base.Maps.{contains_key}
use ohmcp.Base.Equality.{text_equality}
use ohmcp.Security.Crypto.{Aead, Authentic}

-- Compression: a run of one byte becomes its length and the byte.
abbrev pub replicate : ℕ → ℕ → List ℕ
replicate zero x = []
replicate (suc n) x = x ∷ replicate n x

abbrev all_eq : ℕ → List ℕ → Bool
all_eq x [] = true
all_eq x (y ∷ ys) = y == x && all_eq x ys

all_eq-replicate : (x : ℕ) (ys : List ℕ) → all_eq x ys ≡ true → replicate (length ys) x ≡ ys
all_eq-replicate x [] e = refl
all_eq-replicate x (y ∷ ys) e = ground (arith, all_eq-replicate x ys)

abbrev pub pack : List ℕ → List ℕ
pack [] = 0 ∷ []
pack (x ∷ xs) = if all_eq x xs then 1 ∷ length xs ∷ x ∷ [] else 0 ∷ x ∷ xs

abbrev pub unpack : List ℕ → Result Text (List ℕ)
unpack (zero ∷ d) = ok d
unpack (suc zero ∷ n ∷ x ∷ []) = ok (x ∷ replicate n x)
unpack _ = err (ascii "bad block")

pub unpack-pack : (d : List ℕ) → unpack (pack d) ≡ ok d
unpack-pack [] = refl
unpack-pack (x ∷ xs) = elim (Bool-cases (all_eq x xs)) [
  | inl e ↦ rw e (ap (λ l. ok (x ∷ l)) (all_eq-replicate x xs e))
  | inr e ↦ rw e
]

abbrev pub run_lengths : Lz4
run_lengths = record {
  compress_prepend_size = pack;
  decompress_size_prepended = unpack;
  restores = unpack-pack;
}

-- A map is walked as it is stored.
All-contains_key :
    (m n : Entries)
    → ((k : List ℕ) → contains_key k n ≡ true → contains_key k m ≡ true)
    → All (λ x. contains_key x.0 m ≡ true) n
unfolding contains_key
All-contains_key m [] h = tt
All-contains_key m (x ∷ n) h =
    (h x.0 (ground (arith, text_eq_iff x.0 x.0)), All-contains_key m n (λ k e. h k (ground arith)))

pub stored_keys : (m : Entries) → All (λ x. contains_key x.0 m ≡ true) m
stored_keys m = All-contains_key m m (λ k e. e)

abbrev pub stored_order : Walk
stored_order = record { iter = λ m. m; walks_keys = stored_keys; walks_all = λ m. refl }

-- A cipher that writes the associated data behind the text, as a tag of sixteen numbers.
abbrev pub zeros : List ℕ
zeros = replicate 16 0

abbrev pub tag_of : List ℕ → List ℕ
tag_of aad = take 16 (aad ++ zeros)

abbrev pub toy_seal : List ℕ → List ℕ → List ℕ → List ℕ → List ℕ
toy_seal key nonce aad p = p ++ tag_of aad

abbrev pub toy_unseal : List ℕ → List ℕ → List ℕ → List ℕ → Option (List ℕ)
toy_unseal key nonce aad c =
    if text_eq (drop (length c - 16) c) (tag_of aad) then some (take (length c - 16) c) else none

length-tag_of : (aad : List ℕ) → length (tag_of aad) ≡ 16
length-tag_of aad = omega (arith, length-take 16 (aad ++ zeros), length-append aad zeros)

sealed_parts :
    (p aad : List ℕ)
    → (take (length (p ++ tag_of aad) - 16) (p ++ tag_of aad) ≡ p)
      × (drop (length (p ++ tag_of aad) - 16) (p ++ tag_of aad) ≡ tag_of aad)
sealed_parts p aad =
    let n : length (p ++ tag_of aad) - 16 ≡ length p =
      omega (arith, length-append p (tag_of aad), length-tag_of aad) in
    rw n (take_all p (tag_of aad), drop_all p (tag_of aad))

pub toy_opens :
    (key nonce aad p : List ℕ) → toy_unseal key nonce aad (toy_seal key nonce aad p) ≡ some p
toy_opens key nonce aad p =
    let (front, back) = sealed_parts p aad in
    rw (back, (text_eq_iff (tag_of aad) (tag_of aad)).1 refl, front)

pub toy_tag : (key nonce aad p : List ℕ) → length (toy_seal key nonce aad p) ≡ length p + 16
toy_tag key nonce aad p = omega (arith, length-append p (tag_of aad), length-tag_of aad)

abbrev pub toy : Aead
toy = record { seal = toy_seal; unseal = toy_unseal; opens = toy_opens; tag = toy_tag }

take-tag_of : (a : List ℕ) → length a ≡ 9 → take 9 (tag_of a) ≡ a
take-tag_of a la =
    let whole = a ++ zeros in
    sym (take-append_le 9 (take 16 whole) (drop 16 whole) (omega (arith, length-tag_of a)))
    ∙ ap (take 9) (take-append-drop 16 whole)
    ∙ ap (λ n. take n whole) (sym la)
    ∙ take_all a zeros

tag_of-injective : (a b : List ℕ) → length a ≡ 9 → length b ≡ 9 → tag_of a ≡ tag_of b → a ≡ b
tag_of-injective a b la lb e = sym (take-tag_of a la) ∙ ap (take 9) e ∙ take-tag_of b lb

pub toy-Authentic : Authentic toy
toy-Authentic key nonce a b p la lb ne =
    let (front, back) = sealed_parts p a in
    elim (Bool-cases (text_eq (tag_of a) (tag_of b))) [
      | inl e ↦ absurd (ne (tag_of-injective a b la lb ((text_eq_iff (tag_of a) (tag_of b)).0 e)))
      | inr e ↦ rw (back, e)
    ]
