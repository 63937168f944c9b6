-- ===== src/Transport/Stream/Reading.antt =====
-- Frames come out of the reader as they went into the writer, however the stream is cut.
use ohmcp.Base.Words.{add_u64}
use ohmcp.Base.{
  true, is_empty, ℕ, suc, ◌≤◌, ◌<◌, ◌≡◌, refl, sym, subst, ap, ap₂, ◌∙◌, Result, ok, Option, none,
  some, List, [], ◌∷◌, ◌++◌, arith, length, All, length-append, take, dec_lt, append_assoc,
  append-nil, Bool-cases, inl, inr, map,
}
use ohmcp.Transport.Stream.{
  queue_all, new_reader, next_frames, Read, bytes, failed, FrameReader, next_loop, next_frame,
  FrameWriter, queue, flush, written, new_writer, write_buf,
}
use ohmcp.Core.Error.{CoreError}
use ohmcp.Core.Frame.{Frame, encode, decode}
use ohmcp.Core.Frame.RoundTrip.{IsWire, with_len, decode-encode}
use ohmcp.Core.Frame.Prefix.{decode_incomplete, decode_few}

-- The bytes of frames, one after the other.
abbrev pub wire : List Frame → List ℕ
wire [] = []
wire (f ∷ fs) = encode f [] ++ wire fs

-- The bytes that reads will return, if none fails and none is empty.
abbrev pub delivered : List (List ℕ) → List ℕ
delivered [] = []
delivered (b ∷ bs) = b ++ delivered bs

abbrev pub chunks : List (List ℕ) → List Read
chunks [] = []
chunks (b ∷ bs) = bytes b ∷ chunks bs

abbrev pub NonEmpty : List ℕ → Type 0
NonEmpty b = 0 < length b

-- A list that begins with `us` and is at least as long, and one that is shorter.
module _ {ℓ} {A : Type ℓ} where
  split_long :
      (us vs xs ys : List A)
      → xs ++ ys ≡ us ++ vs
      → length us ≤ length xs
      → (ws : List A) × (xs ≡ us ++ ws) × (ws ++ ys ≡ vs)
  split_long [] vs xs ys e h = (xs, refl, e)
  split_long (u ∷ us) vs [] ys e h = absurd (omega arith)
  split_long (u ∷ us) vs (x ∷ xs) ys e h =
      let (ws, p, q) = split_long us vs xs ys (cc) (omega arith) in (ws, cc, q)

  split_short :
      (us vs xs ys : List A)
      → xs ++ ys ≡ us ++ vs
      → length xs < length us
      → xs ≡ take (length xs) us
  split_short us vs [] ys e h = refl
  split_short [] vs (x ∷ xs) ys e h = absurd (omega arith)
  split_short (u ∷ us) vs (x ∷ xs) ys e h =
      ap₂ ◌∷◌ (cc) (split_short us vs xs ys (cc) (omega arith))

-- The reader with a buffer that holds a whole frame, and with one that does not.
next_loop_whole :
    (inner : List Read) (f : Frame) (ws : List ℕ) (n : ℕ)
    → IsWire f
    → next_loop inner (encode f [] ++ ws) n
      ≡ (ok (some (with_len f)), record { inner = inner; buf = ws; bytes_read = n })
unfolding next_loop
next_loop_whole [] f ws n w = rw (decode-encode f ws w)
next_loop_whole (bytes b ∷ inner) f ws n w = rw (decode-encode f ws w)
next_loop_whole (failed e ∷ inner) f ws n w = rw (decode-encode f ws w)

pub next_loop_more :
    (inner : List Read) (b buf : List ℕ) (n : ℕ)
    → decode buf ≡ (ok none, buf)
    → 0 < length b
    → next_loop (bytes b ∷ inner) buf n ≡ next_loop inner (buf ++ b) (add_u64 n (length b))
unfolding next_loop
next_loop_more inner b buf n d h = rw d (ground arith)

-- The reader returned the frame `f`, and `left` is what is still to come.
record Yields (out : Result CoreError (Option Frame) × FrameReader) (f : Frame) (left : List ℕ)
    : Type 0 where
  rest : List (List ℕ)
  nonempty : All NonEmpty rest
  inner : out.1.inner ≡ chunks rest
  frame : out.0 ≡ ok (some (with_len f))
  bytes_left : out.1.buf ++ delivered rest ≡ left

pub decode_part :
    (f : Frame) (tail buf more : List ℕ)
    → IsWire f
    → buf ++ more ≡ encode f [] ++ tail
    → length buf < length (encode f [])
    → decode buf ≡ (ok none, buf)
decode_part f tail buf more w e h =
    subst (λ b. decode b ≡ (ok none, b)) (sym (split_short (encode f []) tail buf more e h))
      (decode_incomplete f (length buf) w h)

next_loop-Yields_whole :
    (cs : List (List ℕ)) (buf : List ℕ) (n : ℕ) (f : Frame) (tail : List ℕ)
    → IsWire f
    → All NonEmpty cs
    → buf ++ delivered cs ≡ encode f [] ++ tail
    → length (encode f []) ≤ length buf
    → Yields (next_loop (chunks cs) buf n) f tail
next_loop-Yields_whole cs buf n f tail w ne e h =
    let (ws, p, q) = split_long (encode f []) tail buf (delivered cs) e h in
    let out = ap (λ b. next_loop (chunks cs) b n) p ∙ next_loop_whole (chunks cs) f ws n w in
    record {
      rest = cs;
      nonempty = ne;
      inner = ap (λ o. o.1.inner) out;
      frame = ap (λ o. o.0) out;
      bytes_left = ap (λ o. o.1.buf ++ delivered cs) out ∙ q;
    }

next_loop-Yields :
    (cs : List (List ℕ)) (buf : List ℕ) (n : ℕ) (f : Frame) (tail : List ℕ)
    → IsWire f
    → All NonEmpty cs
    → buf ++ delivered cs ≡ encode f [] ++ tail
    → Yields (next_loop (chunks cs) buf n) f tail
next_loop-Yields [] buf n f tail w ne e = elim (dec_lt (length buf) (length (encode f []))) [
  | yes p ↦
      absurd (omega (arith, ap length e, length-append buf [], length-append (encode f []) tail))
  | no p ↦ next_loop-Yields_whole [] buf n f tail w ne e (omega arith)
]
next_loop-Yields (b ∷ bs) buf n f tail w ne e = elim (dec_lt (length buf) (length (encode f []))) [
  | yes p ↦
      subst (λ o. Yields o f tail)
        (sym (next_loop_more (chunks bs) b buf n (decode_part f tail buf _ w e p) ne.0))
        (next_loop-Yields bs (buf ++ b) (add_u64 n (length b)) f tail w ne.1
          (append_assoc buf b (delivered bs) ∙ e))
  | no p ↦ next_loop-Yields_whole (b ∷ bs) buf n f tail w ne e (omega arith)
]

-- The end of the stream, with nothing left.
next_loop_end :
    (cs : List (List ℕ)) (n : ℕ)
    → All NonEmpty cs
    → delivered cs ≡ []
    → (next_loop (chunks cs) [] n).0 ≡ ok none
unfolding next_loop
next_loop_end [] n ne e = rw (decode_few [] (omega arith)) refl
next_loop_end (b ∷ bs) n ne e =
    absurd (omega (arith, ap length e, length-append b (delivered bs), ne.0))

append_nil_parts {ℓ} : {A : Type ℓ} (xs ys : List A) → xs ++ ys ≡ [] → (xs ≡ []) × (ys ≡ [])
append_nil_parts [] ys e = (refl, e)
append_nil_parts (x ∷ xs) ys e = cc

is_empty→nil {ℓ} : {A : Type ℓ} (xs : List A) → is_empty xs ≡ true → xs ≡ []
is_empty→nil [] e = refl
is_empty→nil (x ∷ xs) e = cc

-- A reader whose buffer and stream hold the bytes of frames, and nothing else, returns those frames
-- in order and then the end of the stream, wherever the stream cuts the bytes into reads.
pub next_frames-wire :
    (fs : List Frame) (r : FrameReader) (cs : List (List ℕ))
    → All IsWire fs
    → All NonEmpty cs
    → r.inner ≡ chunks cs
    → r.buf ++ delivered cs ≡ wire fs
    → next_frames (suc (length fs)) r ≡ map (λ f. ok (some (with_len f))) fs ++ (ok none ∷ [])
unfolding next_frames next_frame
next_frames-wire [] r cs ws ne i e =
    let (none_buf, none_left) = append_nil_parts r.buf (delivered cs) e in
    ap (λ x. x ∷ [])
      ((λ j. (next_loop (i j) (none_buf j) r.bytes_read).0)
        ∙ next_loop_end cs r.bytes_read ne none_left)
next_frames-wire (f ∷ fs) r cs ws ne i e =
    let y =
      subst (λ l. Yields (next_loop l r.buf r.bytes_read) f (wire fs)) (sym i)
        (next_loop-Yields cs r.buf r.bytes_read f (wire fs) ws.0 ne e) in
    ap₂ ◌∷◌ y.frame
      (next_frames-wire fs (next_frame r).1 y.rest ws.1 y.nonempty y.inner y.bytes_left)

pub queue_all-buf :
    (fs : List Frame) (w : FrameWriter)
    → ((queue_all fs w).buf ≡ w.buf ++ wire fs) × ((queue_all fs w).sent ≡ w.sent)
unfolding queue_all
queue_all-buf [] w = (sym (append-nil w.buf), refl)
queue_all-buf (f ∷ fs) w =
    let (b, t) = queue_all-buf fs (queue f w) in
    (
      b ∙ unfold queue encode in append_assoc w.buf (encode f []) (wire fs),
      t ∙ unfold queue in refl,
    )

flush_sent : (w : FrameWriter) → (flush written w).1.sent ≡ w.sent ++ w.buf
unfolding flush write_buf
flush_sent w = elim (Bool-cases (is_empty w.buf)) [
  | inl e ↦ rw e (sym (ap (λ l. w.sent ++ l) (is_empty→nil w.buf e) ∙ append-nil w.sent))
  | inr e ↦ rw e
]

-- Frames queued on a new writer and flushed once arrive in order at a reader of the same stream,
-- followed by its end, wherever the stream cuts the bytes into reads.
pub next_frames-flush :
    (fs : List Frame) (cs : List (List ℕ))
    → All IsWire fs
    → All NonEmpty cs
    → delivered cs ≡ (flush written (queue_all fs new_writer)).1.sent
    → next_frames (suc (length fs)) (new_reader (chunks cs))
      ≡ map (λ f. ok (some (with_len f))) fs ++ (ok none ∷ [])
next_frames-flush fs cs ws ne e =
    let (b, t) = queue_all-buf fs new_writer in
    next_frames-wire fs (new_reader (chunks cs)) cs ws ne refl
      (e ∙ flush_sent (queue_all fs new_writer) ∙ ap₂ ◌++◌ t b)
