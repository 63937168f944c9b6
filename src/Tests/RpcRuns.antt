-- ===== src/Tests/RpcRuns.antt =====
-- The bridge to JSON-RPC.
use ohmcp.Core.Rpc.{method_type, jsonrpc_to_frame}
use ohmcp.Base.{◌≢◌, arith, none, refl, ◌≡◌, [], ◌∷◌, ok}
use ohmcp.Base.Bytes.{ascii}
use ohmcp.Core.MsgType.{call_tool, ping, call_tool_result, error}
use ohmcp.Core.Rpc.Bridge.{request_object, Replies, jsonrpc_to_frame-frame_to_jsonrpc}
use ohmcp.Fixtures.Values.{toy_json, letters}
use ohmcp.Core.Frame

call_tool-ne-ping : call_tool ≢ ping
call_tool-ne-ping e = cc

jsonrpc_to_frame-frame_to_jsonrpc_example :
    (jsonrpc_to_frame toy_json
        (request_object toy_json (ascii "tools/call") 7 (letters (ascii "echo")))
      ≡ ok (Frame.new call_tool 7 (0 ∷ [])))
    × Replies toy_json call_tool_result 7 (letters (0 ∷ [])) (ascii "result")
    × Replies toy_json error 7 (letters (0 ∷ [])) (ascii "error")
jsonrpc_to_frame-frame_to_jsonrpc_example =
    jsonrpc_to_frame-frame_to_jsonrpc toy_json (ascii "tools/call") call_tool 7
      (letters (ascii "echo")) (letters (0 ∷ [])) refl call_tool-ne-ping refl (omega arith) refl

-- What MCP has and the bridge has not.
no_subscription : method_type (ascii "resources/subscribe") ≡ none
no_subscription = refl
