-- ===== src/Server/Builtin/Registry.antt =====
-- crates/ohmcpd/src/tools.rs: what `builtin_registry` registers, in its order.
use ohmcp.Base.{true, false}
use ohmcp.Server.Builtin.{
  summarize_prompt, Json, echo, kb_search, kb_dump, kb_blob, device_status, math_sum, summarize,
}
use ohmcp.Base.Bytes.{ascii}
use ohmcp.Base.Utf8.{utf8}
use ohmcp.Server.Tools.{ToolRegistry, register, register_resource, register_prompt}
use ohmcp.Server.Tools

module _ {Value : Type 0} (json : Json Value) where
  abbrev with_texts : ToolRegistry Value → ToolRegistry Value
  with_texts r =
      register (ascii "kb.dump") (utf8 "拉取整篇知识库文档")
        (json.literal
          (ascii "{\"type\":\"object\",\"properties\":{\"doc_id\":{\"type\":\"string\"}}}"))
        true (kb_dump json)
        (register (ascii "kb.search") (utf8 "知识库检索，返回文档片段")
          (json.literal (
            ascii
              "{\"type\":\"object\",\"properties\":{\"query\":{\"type\":\"string\"},\"top_k\":{\"type\":\"integer\"}}}"))
          true (kb_search json)
          (register (ascii "echo") (utf8 "回显输入消息")
            (json.literal
              (ascii "{\"type\":\"object\",\"properties\":{\"msg\":{\"type\":\"string\"}}}"))
            false (echo json) r))

  abbrev with_tools : ToolRegistry Value → ToolRegistry Value
  with_tools r =
      register (ascii "math.sum") (utf8 "对数组求和")
        (json.literal (
          ascii
            "{\"type\":\"object\",\"properties\":{\"values\":{\"type\":\"array\",\"items\":{\"type\":\"number\"}}}}"))
        false (math_sum json)
        (register (ascii "device.status") (utf8 "查询设备资源状态")
          (json.literal
            (ascii "{\"type\":\"object\",\"properties\":{\"device_id\":{\"type\":\"string\"}}}"))
          true (device_status json)
          (register (ascii "kb.blob") (utf8 "生成指定大小的负载（size_kb 千字节）")
            (json.literal (
              ascii
                "{\"type\":\"object\",\"properties\":{\"size_kb\":{\"type\":\"integer\"},\"seed\":{\"type\":\"integer\"}}}"))
            false (kb_blob json) (with_texts r)))

  abbrev with_resources : ToolRegistry Value → ToolRegistry Value
  with_resources r =
      register_resource (ascii "ohmcp://device/profile") (utf8 "设备画像") (ascii "application/json")
        (ascii "{\"os\":\"OpenHarmony\",\"kernel\":\"linux\",\"arch\":\"aarch64\"}")
        (register_resource (ascii "ohmcp://docs/protocol") (utf8 "协议说明") (ascii "text/markdown")
          (utf8 "# ohmcp 协议\n二进制帧 + LZ4 压缩 + ChaCha20-Poly1305 加密的原生 MCP 传输。") r)

  unfoldable pub builtin_registry : ToolRegistry Value
  unfolding register register_resource register_prompt
  builtin_registry =
      register_prompt summarize_prompt (summarize json) (with_resources (with_tools Tools.new))
