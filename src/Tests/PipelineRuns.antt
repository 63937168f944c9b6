-- ===== src/Tests/PipelineRuns.antt =====
-- The pipeline of payloads.
use ohmcp.Base.{arith, ◌∷◌, [], refl, ◌≡◌, ok, err, inr}
use ohmcp.Base.Bytes.{ascii}
use ohmcp.Core.MsgType.{call_tool, call_tool_result, cancel}
use ohmcp.Pipeline.{PayloadPipeline, wrap, unwrap, wrap_cache_ref, enable_encryption, aad, frame_of}
use ohmcp.Pipeline.RoundTrip.{Agree, keyed, unwrap-wrap}
use ohmcp.Pipeline.Tamper.{relabelled, unwrap_tampered, unwrap_plain}
use ohmcp.Fixtures.{toy, run_lengths, replicate, toy-Authentic}
use ohmcp.Pipeline
use ohmcp.Security.Crypto

abbrev server : PayloadPipeline
server = enable_encryption (1 ∷ 2 ∷ 3 ∷ 4 ∷ []) (ascii "key") Pipeline.new

abbrev client : PayloadPipeline
client = enable_encryption (5 ∷ 6 ∷ 7 ∷ 8 ∷ []) (ascii "key") Pipeline.new

agree : Agree server.cipher client.cipher
agree = keyed refl refl

unwrap-wrap_example :
    unwrap run_lengths toy 5
      (wrap run_lengths toy call_tool_result 8 (replicate 600 7) server).0
      client
    ≡ (ok (replicate 600 7), client)
unwrap-wrap_example =
    unwrap-wrap run_lengths toy 5 server client call_tool_result 8 (replicate 600 7) agree

unwrap_tampered_example :
    unwrap run_lengths toy 5
      (relabelled call_tool_result 999
        (wrap run_lengths toy call_tool_result 8 (ascii "secret") server).0)
      client
    ≡ (err (ascii "decryption failed"), client)
unwrap_tampered_example =
    unwrap_tampered run_lengths toy 5 server client (Crypto.new (1 ∷ 2 ∷ 3 ∷ 4 ∷ []) (ascii "key"))
      (Crypto.new (5 ∷ 6 ∷ 7 ∷ 8 ∷ []) (ascii "key")) call_tool_result call_tool_result 8 999
      (ascii "secret") toy-Authentic refl refl refl refl (omega arith) (omega arith)
      (inr (omega arith))

unwrap_plain_example :
    unwrap run_lengths toy 5
      (relabelled call_tool 999 (wrap run_lengths toy cancel 8 (replicate 600 7) Pipeline.new).0)
      client
    ≡ (ok (replicate 600 7), client)
unwrap_plain_example =
    unwrap_plain run_lengths toy 5 Pipeline.new client
      (Crypto.new (5 ∷ 6 ∷ 7 ∷ 8 ∷ []) (ascii "key")) cancel call_tool 8 999 (replicate 600 7) refl
      refl
