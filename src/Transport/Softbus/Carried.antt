-- ===== src/Transport/Softbus/Carried.antt =====
-- Frames over a session of the soft bus.
use ohmcp.Base.{
  drop_add, false, true, ◌≤◌, ap₂, subst, length-append, arith, append_assoc, ◌++◌, List, ◌⊎◌, ◌∙◌,
  ap, sym, refl, ◌≡◌, ◌<◌, ◌-◌, ℕ, length-drop, length-take, take-append-drop, All, drop, take,
  is_empty, length, Bool-cases, if◌then◌else◌, leb, inl, inr, [], ◌∷◌,
}
use ohmcp.Transport.Stream.Reading.{delivered, NonEmpty}
use Prim.Native.Nat.{min}
use ohmcp.Transport.Softbus.{
  taken_chunk, with_chunk, recv_bytes, put_slice, poll_read, SessionStream,
}

-- The bytes that a stream has still to give.
abbrev pub left : SessionStream → List ℕ
left s = drop s.pos s.pending ++ delivered s.session.rx

-- What reads return one after the other until one returns no byte, with so much room for each.
unfoldable pub read_all : List ℕ → SessionStream → List (List ℕ)
unfolding poll_read
read_all [] s = []
read_all (room ∷ rooms) s =
    let (b, s') = poll_read room s in
    let rest = read_all rooms s' in if is_empty b then [] else b ∷ rest

pub no_length : (xs : List ℕ) → length xs ≡ 0 → xs ≡ []
no_length [] e = refl
no_length (x ∷ xs) e = absurd (omega arith)

not_empty : (xs : List ℕ) → NonEmpty xs → is_empty xs ≡ false
not_empty [] h = absurd (omega arith)
not_empty (x ∷ xs) h = refl

nothing_first : (xs ys : List ℕ) → xs ++ ys ≡ [] → is_empty xs ≡ true
nothing_first [] ys e = refl
nothing_first (x ∷ xs) ys e = cc

-- What a read returned and the stream after it: the bytes that were left, none lost and none twice,
-- at least one if there is one, and no empty chunk to come.
abbrev Took : SessionStream → List ℕ × SessionStream → Type 0
Took s (b, s') = (b ++ left s' ≡ left s) × (NonEmpty b ⊎ (left s ≡ [])) × All NonEmpty s'.session.rx

put_slice-Took :
    (room : ℕ) (s : SessionStream)
    → 0 < room
    → s.pos < length s.pending
    → All NonEmpty s.session.rx
    → Took s (put_slice room s)
put_slice-Took room s r p ne =
    let n = min (length s.pending - s.pos) room in
    let d = drop s.pos s.pending in
    (
      ap (λ l. take n d ++ (l ++ delivered s.session.rx)) (drop_add s.pos n s.pending)
          ∙ sym (append_assoc (take n d) (drop n d) (delivered s.session.rx))
          ∙ ap (λ l. l ++ delivered s.session.rx) (take-append-drop n d),
      inl (omega (arith, length-take n d, length-drop s.pos s.pending)),
      ne,
    )

with_chunk-Took :
    (room : ℕ) (s : SessionStream) (rx : List (List ℕ))
    → 0 < room
    → s.session.rx ≡ rx
    → drop s.pos s.pending ≡ []
    → All NonEmpty rx
    → Took s (with_chunk room s (taken_chunk rx s.session))
with_chunk-Took room s [] r e d ne =
    (refl, inr (ap₂ (λ x y. x ++ delivered y) d e), subst (All NonEmpty) (sym e) tt)
with_chunk-Took room s (b ∷ rest) r e d ne =
    let (whole, some_byte, later) =
      put_slice-Took room
        (record { session = record s.session { rx = rest }; pending = b; pos = 0 }) r ne.0 ne.1 in
    let same : left s ≡ b ++ delivered rest = ap₂ (λ x y. x ++ delivered y) d e in
    (whole ∙ sym same, elim some_byte [ inl y ↦ inl y | inr n ↦ inr (same ∙ n) ], later)

poll_read-Took :
    (room : ℕ) (s : SessionStream)
    → 0 < room
    → All NonEmpty s.session.rx
    → Took s (poll_read room s)
unfolding poll_read recv_bytes
poll_read-Took room s r ne = elim (Bool-cases (leb (length s.pending) s.pos)) [
  | inl e ↦
      let all_given : length s.pending ≤ s.pos = ground arith in
      rw e (
        with_chunk-Took room s s.session.rx r refl
          (no_length _ (omega (arith, all_given, length-drop s.pos s.pending))) ne)
  | inr e ↦ rw e (put_slice-Took room s r (ground arith) ne)
]

-- With enough reads all that is left is read, in chunks of which none is empty.
pub read_all-left :
    (rooms : List ℕ) (s : SessionStream)
    → All (λ n. 0 < n) rooms
    → All NonEmpty s.session.rx
    → length (left s) < length rooms
    → (delivered (read_all rooms s) ≡ left s) × All NonEmpty (read_all rooms s)
unfolding read_all
read_all-left [] s r ne h = absurd (omega arith)
read_all-left (room ∷ rooms) s r ne h =
    let t = poll_read room s in
    let (whole, some_byte, later) = poll_read-Took room s r.0 ne in
    elim some_byte [
      | inl y ↦
          let (rest, nonempty) =
            read_all-left rooms t.1 r.1 later
              (omega (arith, ap length whole, length-append t.0 (left t.1))) in
          rw (not_empty t.0 y) (ap (λ l. t.0 ++ l) rest ∙ whole, (y, nonempty))
      | inr n ↦ rw (nothing_first t.0 (left t.1) (whole ∙ n)) (sym n, tt)
    ]
