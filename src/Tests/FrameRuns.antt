-- ===== src/Tests/FrameRuns.antt =====
-- Frames.
use ohmcp.Fixtures.{replicate}
use ohmcp.Base.{arith, ◌++◌, ◌∷◌, [], List, refl, ◌≡◌, ℕ, length, ok, err, some}
use ohmcp.Core.MsgType.{call_tool, ping, to_u8, from_u8}
use ohmcp.Core.Frame.{Frame, new, encode, decode, take_frame, parsed_frame}
use ohmcp.Core.Frame.RoundTrip.{IsWire, with_len, decode-encode, encode-decode}
use ohmcp.Core.Error.{bad_magic, codec}
use ohmcp.Base.Bytes.{ascii}

abbrev hello : Frame
hello = record {
  header = record { flags = 0; msg_type = call_tool; request_id = 42; payload_len = 5 };
  payload = ascii "hello";
}

abbrev hello_bytes : List ℕ
hello_bytes =
    0x4D ∷ 0x4F ∷ 1 ∷ 0 ∷ 5 ∷ 42 ∷ 0 ∷ 0 ∷ 0 ∷ 0 ∷ 0 ∷ 0 ∷ 0 ∷ 5 ∷ 0 ∷ 0 ∷ 0 ∷ ascii "hello"

hello-IsWire : IsWire hello
hello-IsWire = record { flags = omega arith; request_id = omega arith; short = omega arith }

new-hello : new call_tool 42 (ascii "hello") ≡ hello
unfolding new
new-hello = refl

encode-hello : encode hello [] ≡ hello_bytes
unfolding encode to_u8
encode-hello = refl

decode-hello : decode (hello_bytes ++ (9 ∷ [])) ≡ (ok (some hello), 9 ∷ [])
unfolding decode take_frame parsed_frame from_u8
decode-hello = refl

decode_bad_magic : decode (replicate 17 0) ≡ (err bad_magic, replicate 17 0)
unfolding decode
decode_bad_magic = refl

decode_unknown_type :
    (decode (0x4D ∷ 0x4F ∷ 1 ∷ 0 ∷ 0x66 ∷ replicate 12 0)).0
    ≡ err (codec (ascii "unknown msg type 0x66"))
unfolding decode take_frame from_u8
decode_unknown_type = refl

decode-encode_example : decode (encode hello [] ++ (9 ∷ [])) ≡ (ok (some (with_len hello)), 9 ∷ [])
decode-encode_example = decode-encode hello (9 ∷ []) hello-IsWire

encode-decode_example :
    (encode hello [] ++ (9 ∷ []) ≡ hello_bytes ++ (9 ∷ []))
    × IsWire hello
    × (5 ≡ length (ascii "hello"))
encode-decode_example =
    encode-decode (hello_bytes ++ (9 ∷ [])) (9 ∷ []) hello (omega arith) decode-hello

from_u8-ping : from_u8 0x07 ≡ ok ping
unfolding from_u8
from_u8-ping = refl
