-- ===== src/Core/Frame.antt =====
-- crates/ohmcp-core/src/frame.rs: the flags, the frame, `Frame::new`, `encode` and `decode`.
pub mod Prefix
pub mod RoundTrip
use Prim.Native.Nat.{bit_and, bit_or}
use ohmcp.Base.{
  ℕ, ◌+◌, ◌*◌, ◌%◌, ◌^◌, Bool, not, Result, ok, err, Option, none, some, List, [], ◌∷◌, ◌++◌,
  length, take, drop, get_or, ltb, ◌==◌, if◌then◌else◌,
}
use ohmcp.Base.Bytes.{to_le_bytes, from_le_bytes}
use ohmcp.Core.Error.{CoreError, bad_magic, bad_version, frame_too_large}
use ohmcp.Core.MsgType.{MsgType, to_u8, from_u8}

abbrev pub frame_magic : ℕ
frame_magic = 0x4F4D

abbrev pub protocol_version : ℕ
protocol_version = 1

abbrev pub header_len : ℕ
header_len = 17

abbrev pub max_frame_len : ℕ
max_frame_len = 64 * 1024 * 1024

-- `FrameFlags(u8)` and its bits.
abbrev pub FrameFlags : Type 0
FrameFlags = ℕ

abbrev pub compressed_bit : ℕ
compressed_bit = 0b0000_0001

abbrev pub encrypted_bit : ℕ
encrypted_bit = 0b0000_0010

abbrev pub cache_ref_bit : ℕ
cache_ref_bit = 0b0000_0100

abbrev pub cacheable_bit : ℕ
cacheable_bit = 0b0000_1000

abbrev pub shm_ref_bit : ℕ
shm_ref_bit = 0b0001_0000

abbrev pub compressed : FrameFlags → Bool
compressed f = not (bit_and f compressed_bit == 0)

abbrev pub encrypted : FrameFlags → Bool
encrypted f = not (bit_and f encrypted_bit == 0)

abbrev pub cache_ref : FrameFlags → Bool
cache_ref f = not (bit_and f cache_ref_bit == 0)

abbrev pub cacheable : FrameFlags → Bool
cacheable f = not (bit_and f cacheable_bit == 0)

abbrev pub shm_ref : FrameFlags → Bool
shm_ref f = not (bit_and f shm_ref_bit == 0)

pub record FrameHeader : Type 0 where
  pub flags : FrameFlags
  pub msg_type : MsgType
  pub request_id : ℕ
  pub payload_len : ℕ

pub record Frame : Type 0 where
  pub header : FrameHeader
  pub payload : List ℕ

-- `payload.len() as u32`
abbrev pub len_u32 : List ℕ → ℕ
len_u32 payload = length payload % 2 ^ 32

unfoldable pub new : MsgType → ℕ → List ℕ → Frame
new msg_type request_id payload = record {
  header = record {
    flags = 0;
    msg_type = msg_type;
    request_id = request_id;
    payload_len = len_u32 payload;
  };
  payload = payload;
}

-- The frame is appended to the output buffer.
unfoldable pub encode : Frame → List ℕ → List ℕ
encode f buf =
    buf
    ++ (to_le_bytes 2 frame_magic
        ++ (protocol_version
            ∷ f.header.flags
            ∷ to_u8 f.header.msg_type
            ∷ (to_le_bytes 8 f.header.request_id
                ++ (to_le_bytes 4 (len_u32 f.payload) ++ f.payload))))

-- `buf[i]`, where the length was tested before.
abbrev pub at : List ℕ → ℕ → ℕ
at buf i = get_or buf i 0

-- The bytes `buf[i]` to `buf[i + n - 1]`.
abbrev pub read_magic : List ℕ → ℕ
read_magic buf = from_le_bytes (at buf 0 ∷ at buf 1 ∷ [])

abbrev pub read_payload_len : List ℕ → ℕ
read_payload_len buf = from_le_bytes (at buf 13 ∷ at buf 14 ∷ at buf 15 ∷ at buf 16 ∷ [])

abbrev pub read_request_id : List ℕ → ℕ
read_request_id buf =
    from_le_bytes (
      at buf 5 ∷ at buf 6 ∷ at buf 7 ∷ at buf 8 ∷ at buf 9 ∷ at buf 10 ∷ at buf 11 ∷ at buf 12 ∷ [])

-- The frame that `decode` builds once all of it is there.
unfoldable pub parsed_frame : MsgType → List ℕ → Frame
parsed_frame msg_type buf = record {
  header = record {
    flags = at buf 3;
    msg_type = msg_type;
    request_id = read_request_id buf;
    payload_len = read_payload_len buf;
  };
  payload = take (read_payload_len buf) (drop header_len buf);
}

-- The end of `decode`: the type, then the bytes are taken off the buffer.
unfoldable pub take_frame :
    Result CoreError MsgType → List ℕ → Result CoreError (Option Frame) × List ℕ
take_frame (err e) buf = (err e, buf)
take_frame (ok msg_type) buf =
    (ok (some (parsed_frame msg_type buf)), drop (read_payload_len buf) (drop header_len buf))

-- The result, and the buffer afterwards. Too few bytes are `ok none`.
unfoldable pub decode : List ℕ → Result CoreError (Option Frame) × List ℕ
decode buf =
    if ltb (length buf) header_len
    then (ok none, buf)
    else if not (read_magic buf == frame_magic)
    then (err bad_magic, buf)
    else if not (at buf 2 == protocol_version)
    then (err (bad_version (at buf 2)), buf)
    else if ltb max_frame_len (read_payload_len buf)
    then (err (frame_too_large (read_payload_len buf)), buf)
    else if ltb (length buf) (header_len + read_payload_len buf)
    then (ok none, buf)
    else take_frame (from_u8 (at buf 4)) buf
