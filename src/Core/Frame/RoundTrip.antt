-- ===== src/Core/Frame/RoundTrip.antt =====
-- `decode` after `encode`, and `encode` after `decode`.
use ohmcp.Base.{
  ℕ, zero, suc, ◌+◌, ◌^◌, ◌≤◌, ◌<◌, ◌≡◌, refl, sym, ap, ap₂, ◌∙◌, Result, ok, err, some, List, [],
  ◌∷◌, ◌++◌, arith, All, length, All-get_or, length-take, length-drop, take, drop, drop_step,
  take-append-drop, take_all, drop_all, length-append,
}
use ohmcp.Base.Bytes.{to_le_bytes, from_le_bytes, IsByte}
use ohmcp.Core.Error.{CoreError}
use ohmcp.Core.MsgType.{MsgType, from_u8, from_u8-to_u8, to_u8-from_u8}
use ohmcp.Core.Frame.{
  Frame, len_u32, at, encode, decode, max_frame_len, frame_magic, take_frame, parsed_frame,
  read_magic, read_payload_len, read_request_id,
}

-- The fields of a frame fit their places in the header, and the payload is not too long.
pub record IsWire (f : Frame) : Type 0 where
  pub flags : IsByte f.header.flags
  pub request_id : f.header.request_id < 2 ^ 64
  pub short : length f.payload ≤ max_frame_len

-- The frame whose length field is that of its payload, which is what `encode` writes.
abbrev pub with_len : Frame → Frame
with_len f = record f { header = record (f.header) { payload_len = length f.payload } }

from_to_4 : (n : ℕ) → n < 2 ^ 32 → from_le_bytes (to_le_bytes 4 n) ≡ n
from_to_4 n h = omega arith

from_to_8 : (n : ℕ) → n < 2 ^ 64 → from_le_bytes (to_le_bytes 8 n) ≡ n
from_to_8 n h = omega arith

-- Any frame, written and read back with any bytes behind it.
pub decode-encode :
    (f : Frame) (rest : List ℕ)
    → IsWire f
    → decode (encode f [] ++ rest) ≡ (ok (some (with_len f)), rest)
unfolding encode decode take_frame parsed_frame
decode-encode f rest w = ground (
  arith,
  from_u8-to_u8 f.header.msg_type,
  from_to_4 (len_u32 f.payload),
  from_to_8 f.header.request_id,
  take_all f.payload rest,
  drop_all f.payload rest,
  length-append f.payload rest,
)

-- The bytes of a buffer from an index on, the first `n` of them written out.
abbrev bytes_from : ℕ → ℕ → List ℕ → List ℕ
bytes_from i zero buf = drop i buf
bytes_from i (suc n) buf = at buf i ∷ bytes_from (suc i) n buf

drop-bytes_from : (i n : ℕ) (buf : List ℕ) → i + n ≤ length buf → drop i buf ≡ bytes_from i n buf
drop-bytes_from i zero buf h = refl
drop-bytes_from i (suc n) buf h =
    drop_step i buf 0 (omega arith)
    ∙ ap (λ l. at buf i ∷ l) (drop-bytes_from (suc i) n buf (omega arith))

to_from_8 :
    (a b c d e f g h : ℕ)
    → a < 256
    → b < 256
    → c < 256
    → d < 256
    → e < 256
    → f < 256
    → g < 256
    → h < 256
    → to_le_bytes 8 (from_le_bytes (a ∷ b ∷ c ∷ d ∷ e ∷ f ∷ g ∷ h ∷ []))
      ≡ a ∷ b ∷ c ∷ d ∷ e ∷ f ∷ g ∷ h ∷ []
to_from_8 a b c d e f g h ha hb hc hd he hf hg hh = ground arith

to_from_4 :
    (a b c d : ℕ)
    → a < 256
    → b < 256
    → c < 256
    → d < 256
    → to_le_bytes 4 (from_le_bytes (a ∷ b ∷ c ∷ d ∷ [])) ≡ a ∷ b ∷ c ∷ d ∷ []
to_from_4 a b c d ha hb hc hd = ground arith

-- What `decode` tested before it took a frame from a buffer.
decoded_header :
    (buf rest : List ℕ) (f : Frame)
    → decode buf ≡ (ok (some f), rest)
    → (read_magic buf ≡ frame_magic)
      × (at buf 2 ≡ 1)
      × (read_payload_len buf ≤ max_frame_len)
      × (17 + read_payload_len buf ≤ length buf)
      × (take_frame (from_u8 (at buf 4)) buf ≡ (ok (some f), rest))
unfolding decode
decoded_header buf rest f h = ground arith

take_frame_parts :
    (r : Result CoreError MsgType) (buf rest : List ℕ) (f : Frame)
    → take_frame r buf ≡ (ok (some f), rest)
    → (r ≡ ok f.header.msg_type)
      × (f ≡ parsed_frame f.header.msg_type buf)
      × (drop (read_payload_len buf) (drop 17 buf) ≡ rest)
unfolding take_frame parsed_frame
take_frame_parts (err e) buf rest f h = cc
take_frame_parts (ok t) buf rest f h = ground arith

-- What `decode` takes from a buffer.
pub record IsTaken (buf rest : List ℕ) (f : Frame) : Type 0 where
  pub long : 17 + read_payload_len buf ≤ length buf
  pub magic : read_magic buf ≡ frame_magic
  pub version : at buf 2 ≡ 1
  pub small : read_payload_len buf ≤ max_frame_len
  pub type : from_u8 (at buf 4) ≡ ok f.header.msg_type
  pub frame : f ≡ parsed_frame f.header.msg_type buf
  pub left : drop (read_payload_len buf) (drop 17 buf) ≡ rest

pub decode-IsTaken :
    (buf rest : List ℕ) (f : Frame) → decode buf ≡ (ok (some f), rest) → IsTaken buf rest f
decode-IsTaken buf rest f h =
    let (a, b, c, d, e) = decoded_header buf rest f h in
    let (t, p, l) = take_frame_parts (from_u8 (at buf 4)) buf rest f e in
    record { long = d; magic = a; version = b; small = c; type = t; frame = p; left = l }

module _ {buf rest : List ℕ} {f : Frame} (bytes : All IsByte buf) (t : IsTaken buf rest f) where
  byte_at : (i : ℕ) → i < 17 → at buf i < 256
  byte_at i h = All-get_or IsByte i buf 0 bytes (omega (arith, t.long))

  taken_header :
      (f.header.flags ≡ at buf 3)
      × (f.header.request_id ≡ read_request_id buf)
      × (f.header.payload_len ≡ read_payload_len buf)
      × (f.payload ≡ take (read_payload_len buf) (drop 17 buf))
  unfolding parsed_frame
  taken_header = ground (arith, t.frame)

  pub length-taken : length f.payload ≡ read_payload_len buf
  length-taken = omega (
    arith,
    ap length taken_header.3,
    length-take (read_payload_len buf) (drop 17 buf),
    length-drop 17 buf,
    t.long,
  )

  request_id-lt : read_request_id buf < 2 ^ 64
  request_id-lt = omega (
    arith,
    byte_at 5,
    byte_at 6,
    byte_at 7,
    byte_at 8,
    byte_at 9,
    byte_at 10,
    byte_at 11,
    byte_at 12,
  )

  taken-IsWire : IsWire f
  taken-IsWire = record {
    flags = omega (arith, taken_header, byte_at 3);
    request_id = omega (arith, taken_header, request_id-lt);
    short = omega (arith, length-taken, t.small);
  }

  magic_bytes : (at buf 0 ≡ 0x4D) × (at buf 1 ≡ 0x4F)
  magic_bytes = omega (arith, t.magic, byte_at 0, byte_at 1)

  id_bytes :
      to_le_bytes 8 f.header.request_id
      ≡ at buf 5
        ∷ at buf 6
        ∷ at buf 7
        ∷ at buf 8
        ∷ at buf 9
        ∷ at buf 10
        ∷ at buf 11
        ∷ at buf 12
        ∷ []
  id_bytes =
      ap (to_le_bytes 8) taken_header.1
      ∙ to_from_8 _ _ _ _ _ _ _ _ (byte_at 5 (omega arith)) (byte_at 6 (omega arith))
          (byte_at 7 (omega arith)) (byte_at 8 (omega arith)) (byte_at 9 (omega arith))
          (byte_at 10 (omega arith)) (byte_at 11 (omega arith)) (byte_at 12 (omega arith))

  len_bytes : to_le_bytes 4 (len_u32 f.payload) ≡ at buf 13 ∷ at buf 14 ∷ at buf 15 ∷ at buf 16 ∷ []
  len_bytes =
      ap (to_le_bytes 4) (omega (arith, length-taken, t.small))
      ∙ to_from_4 _ _ _ _ (byte_at 13 (omega arith)) (byte_at 14 (omega arith))
          (byte_at 15 (omega arith)) (byte_at 16 (omega arith))

  payload_rest : f.payload ++ rest ≡ drop 17 buf
  payload_rest =
      ap₂ ◌++◌ taken_header.3 (sym t.left) ∙ take-append-drop (read_payload_len buf) (drop 17 buf)

  encode-taken : encode f [] ++ rest ≡ buf
  unfolding encode
  encode-taken =
      (λ i.
        sym magic_bytes.0 i
        ∷ sym magic_bytes.1 i
        ∷ sym t.version i
        ∷ taken_header.0 i
        ∷ to_u8-from_u8 (at buf 4) f.header.msg_type t.type i
        ∷ (id_bytes i ++ (len_bytes i ++ payload_rest i)))
      ∙ sym (drop-bytes_from 0 17 buf (omega (arith, t.long)))

-- The bytes that `decode` consumed are those that `encode` writes for the frame it returned, whose
-- fields fit the header and whose length field is that of its payload.
pub encode-decode :
    (buf rest : List ℕ) (f : Frame)
    → All IsByte buf
    → decode buf ≡ (ok (some f), rest)
    → (encode f [] ++ rest ≡ buf) × IsWire f × (f.header.payload_len ≡ length f.payload)
encode-decode buf rest f bytes h =
    let t = decode-IsTaken buf rest f h in
    (
      encode-taken bytes t,
      taken-IsWire bytes t,
      (taken_header bytes t).2 ∙ sym (length-taken bytes t),
    )
