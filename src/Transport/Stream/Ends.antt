-- ===== src/Transport/Stream/Ends.antt =====
-- Streams that end inside a frame.
use ohmcp.Base.Words.{add_u64}
use ohmcp.Base.{
  arith, append_assoc, append-nil, ◌++◌, ◌∷◌, [], List, none, ◌∙◌, ap, sym, ◌≡◌, ◌<◌, ℕ, err, ok,
  length-take, take-append-drop, length-append, All, drop, take, length,
}
use ohmcp.Core.Error.{incomplete}
use ohmcp.Core.Frame.{Frame, encode, decode}
use ohmcp.Core.Frame.RoundTrip.{IsWire}
use ohmcp.Transport.Stream.{next_loop, next_frame, new_reader}
use ohmcp.Transport.Stream.Reading.{decode_part, next_loop_more, delivered, chunks, NonEmpty}

cut_none :
    (f : Frame) (k : ℕ) (cs : List (List ℕ)) (buf : List ℕ)
    → IsWire f
    → k < length (encode f [])
    → buf ++ delivered cs ≡ take k (encode f [])
    → decode buf ≡ (ok none, buf)
cut_none f k cs buf w l e =
    decode_part f [] buf (delivered cs ++ drop k (encode f [])) w
      (sym (append_assoc buf (delivered cs) (drop k (encode f [])))
        ∙ ap (λ b. b ++ drop k (encode f [])) e
        ∙ take-append-drop k (encode f [])
        ∙ sym (append-nil (encode f [])))
      (omega (arith, ap length e, length-append buf (delivered cs), length-take k (encode f [])))

next_loop_last :
    (buf : List ℕ) (n : ℕ)
    → decode buf ≡ (ok none, buf)
    → 0 < length buf
    → (next_loop [] buf n).0 ≡ err incomplete
unfolding next_loop
next_loop_last [] n d h = absurd (omega arith)
next_loop_last (b ∷ bs) n d h = rw d

next_loop_cut :
    (f : Frame) (k : ℕ) (cs : List (List ℕ)) (buf : List ℕ) (n : ℕ)
    → IsWire f
    → All NonEmpty cs
    → 0 < k
    → k < length (encode f [])
    → buf ++ delivered cs ≡ take k (encode f [])
    → (next_loop (chunks cs) buf n).0 ≡ err incomplete
next_loop_cut f k [] buf n w ne h l e =
    next_loop_last buf n (cut_none f k [] buf w l e)
      (omega (arith, ap length e, length-append buf [], length-take k (encode f [])))
next_loop_cut f k (b ∷ bs) buf n w ne h l e =
    ap (λ o. o.0) (next_loop_more (chunks bs) b buf n (cut_none f k (b ∷ bs) buf w l e) ne.0)
    ∙ next_loop_cut f k bs (buf ++ b) (add_u64 n (length b)) w ne.1 h l
        (append_assoc buf b (delivered bs) ∙ e)

-- A stream that ends inside a frame is an error, never a shorter frame or a clean end.
pub next_frame_cut :
    (f : Frame) (k : ℕ) (cs : List (List ℕ))
    → IsWire f
    → All NonEmpty cs
    → 0 < k
    → k < length (encode f [])
    → delivered cs ≡ take k (encode f [])
    → (next_frame (new_reader (chunks cs))).0 ≡ err incomplete
unfolding next_frame
next_frame_cut f k cs w ne h l e = next_loop_cut f k cs [] 0 w ne h l e
