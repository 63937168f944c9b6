-- ===== src/Core/Frame/Prefix.antt =====
-- `decode` on a part of a frame, and on a buffer that more bytes have joined.
use ohmcp.Base.{
  ℕ, ◌+◌, ◌≤◌, ◌<◌, ◌≡◌, refl, sym, ap, ap₂, ◌∙◌, Result, ok, err, none, some, List, [], ◌∷◌, ◌++◌,
  arith, length, length-append, length-take, take, drop, take-append-drop, take-append_le,
  drop-append_le, get_or-append_lt, length-drop, dec_lt,
}
use ohmcp.Base.Bytes.{from_le_bytes}
use ohmcp.Core.Error.{CoreError}
use ohmcp.Core.MsgType.{MsgType, from_u8}
use ohmcp.Core.Frame.{
  Frame, at, encode, decode, max_frame_len, frame_magic, take_frame, parsed_frame, read_magic,
  read_payload_len, read_request_id,
}
use ohmcp.Core.Frame.RoundTrip.{IsWire, decode-IsTaken}

pub decode_few : (buf : List ℕ) → length buf < 17 → decode buf ≡ (ok none, buf)
unfolding decode
decode_few buf h = ground arith

pub decode_short :
    (buf : List ℕ)
    → read_magic buf ≡ frame_magic
    → at buf 2 ≡ 1
    → read_payload_len buf ≤ max_frame_len
    → length buf < 17 + read_payload_len buf
    → decode buf ≡ (ok none, buf)
unfolding decode
decode_short buf m v n h = ground arith

decode_whole :
    (buf : List ℕ)
    → read_magic buf ≡ frame_magic
    → at buf 2 ≡ 1
    → read_payload_len buf ≤ max_frame_len
    → 17 + read_payload_len buf ≤ length buf
    → decode buf ≡ take_frame (from_u8 (at buf 4)) buf
unfolding decode
decode_whole buf m v n h = ground arith

-- Two buffers with the same header.
module _ (xs ys : List ℕ) (same : (i : ℕ) → i < 17 → at xs i ≡ at ys i) where
  same_magic : read_magic xs ≡ read_magic ys
  same_magic = ap₂ (λ a b. from_le_bytes (a ∷ b ∷ [])) (same 0 (omega arith)) (same 1 (omega arith))

  same_payload_len : read_payload_len xs ≡ read_payload_len ys
  same_payload_len = λ i. from_le_bytes (
      same 13 (omega arith) i
      ∷ same 14 (omega arith) i
      ∷ same 15 (omega arith) i
      ∷ same 16 (omega arith) i
      ∷ [])

  same_request_id : read_request_id xs ≡ read_request_id ys
  same_request_id = λ i. from_le_bytes (
      same 5 (omega arith) i
      ∷ same 6 (omega arith) i
      ∷ same 7 (omega arith) i
      ∷ same 8 (omega arith) i
      ∷ same 9 (omega arith) i
      ∷ same 10 (omega arith) i
      ∷ same 11 (omega arith) i
      ∷ same 12 (omega arith) i
      ∷ [])

pub length-encode : (f : Frame) → length (encode f []) ≡ 17 + length f.payload
unfolding encode
length-encode f = omega arith

header-encode :
    (f : Frame)
    → IsWire f
    → (read_magic (encode f []) ≡ frame_magic)
      × (at (encode f []) 2 ≡ 1)
      × (read_payload_len (encode f []) ≡ length f.payload)
unfolding encode
header-encode f w = (refl, refl, omega (arith, w.short))

at-take : (k : ℕ) (xs : List ℕ) (i : ℕ) → k ≤ length xs → i < k → at (take k xs) i ≡ at xs i
at-take k xs i h l =
    sym (get_or-append_lt i (take k xs) (drop k xs) 0 (omega (arith, length-take k xs)))
    ∙ ap (λ l. at l i) (take-append-drop k xs)

-- Any proper prefix of an encoded frame is left in the buffer, to wait for the bytes that lack.
pub decode_incomplete :
    (f : Frame) (k : ℕ)
    → IsWire f
    → k < length (encode f [])
    → decode (take k (encode f [])) ≡ (ok none, take k (encode f []))
decode_incomplete f k w h = elim (dec_lt k 17) [
  | yes p ↦ decode_few _ (omega (arith, length-take k (encode f [])))
  | no p ↦
      let same = λ (i : ℕ) (l : i < 17). at-take k (encode f []) i (omega arith) (omega arith) in
      let (m, v, n) = header-encode f w in
      decode_short (take k (encode f [])) (same_magic _ _ same ∙ m) (same 2 (omega arith) ∙ v)
        (omega (arith, same_payload_len _ _ same, n, w.short))
        (omega (arith, same_payload_len _ _ same, n, length-take k (encode f []), length-encode f))
]

module _ (buf more : List ℕ) (long : 17 + read_payload_len buf ≤ length buf) where
  same_at : (i : ℕ) → i < 17 → at (buf ++ more) i ≡ at buf i
  same_at i l = get_or-append_lt i buf more 0 (omega arith)

  same_len : read_payload_len (buf ++ more) ≡ read_payload_len buf
  same_len = same_payload_len _ _ same_at

  same_payload :
      take (read_payload_len (buf ++ more)) (drop 17 (buf ++ more))
      ≡ take (read_payload_len buf) (drop 17 buf)
  same_payload =
      ap₂ take same_len (drop-append_le 17 buf more (omega arith))
      ∙ take-append_le _ (drop 17 buf) more (omega (arith, length-drop 17 buf))

  same_rest :
      drop (read_payload_len (buf ++ more)) (drop 17 (buf ++ more))
      ≡ drop (read_payload_len buf) (drop 17 buf) ++ more
  same_rest =
      ap₂ drop same_len (drop-append_le 17 buf more (omega arith))
      ∙ drop-append_le _ (drop 17 buf) more (omega (arith, length-drop 17 buf))

  parsed_frame-append : (t : MsgType) → parsed_frame t (buf ++ more) ≡ parsed_frame t buf
  unfolding parsed_frame
  parsed_frame-append t = λ i. record {
    header = record {
      flags = same_at 3 (omega arith) i;
      msg_type = t;
      request_id = same_request_id _ _ same_at i;
      payload_len = same_len i;
    };
    payload = same_payload i;
  }

  take_frame-append :
      (r : Result CoreError MsgType) (rest : List ℕ) (f : Frame)
      → take_frame r buf ≡ (ok (some f), rest)
      → take_frame r (buf ++ more) ≡ (ok (some f), rest ++ more)
  unfolding take_frame
  take_frame-append (err e) rest f h = cc
  take_frame-append (ok t) rest f h =
      (λ i. (ok (some (parsed_frame-append t i)), same_rest i)) ∙ ap (λ d. (d.0, d.1 ++ more)) h

-- Bytes that arrive behind a frame do not change it: they join what is left.
pub decode-append :
    (buf more rest : List ℕ) (f : Frame)
    → decode buf ≡ (ok (some f), rest)
    → decode (buf ++ more) ≡ (ok (some f), rest ++ more)
decode-append buf more rest f h =
    let t = decode-IsTaken buf rest f h in
    let same = same_at buf more t.long in
    let n = same_len buf more t.long in
    decode_whole (buf ++ more) (same_magic _ _ same ∙ t.magic) (same 2 (omega arith) ∙ t.version)
      (omega (arith, n, t.small)) (omega (arith, n, t.long, length-append buf more))
    ∙ ap (λ x. take_frame (from_u8 x) (buf ++ more)) (same 4 (omega arith))
    ∙ take_frame-append buf more t.long (from_u8 (at buf 4)) rest f
        (sym (decode_whole buf t.magic t.version t.small t.long) ∙ h)
