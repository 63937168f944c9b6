-- ===== src/Server/Builtin.antt =====
-- crates/ohmcpd/src/tools.rs: `builtin_registry`, the tools, resources and prompts that the daemon
-- offers.
pub mod Registry
pub mod Blob
use ohmcp.Server.Tools.{text_result, PromptHandler, ToolHandler}
use ohmcp.Core.Message.{text, Prompt}
use ohmcp.Base.{
  true, ◌*◌, ◌++◌, List, Option, ◌+◌, ℕ, drop, take, length, if◌then◌else◌, ltb, [], ◌∷◌, zero, suc,
  none, some,
}
use ohmcp.Base.Bytes.{Text, ascii}
use ohmcp.Base.Utf8.{utf8, decimal, is_continuation}

-- What the handlers use of `serde_json` and of floating-point numbers. `literal` reads the text of a
-- JSON value, `to_text` is `to_string`, and `display` is `format!("{}")`.
pub record Json (Value : Type 0) : Type 1 where
  pub Float : Type 0
  pub member : Text → Value → Option Value
  pub as_str : Value → Option Text
  pub as_u64 : Value → Option ℕ
  pub as_array : Value → Option (List Value)
  pub as_f64 : Value → Option Float
  pub sum : List Float → Float
  pub zero_float : Float
  pub display : Float → Text
  pub literal : Text → Value
  pub string : Text → Value
  pub object : List (Text × Value) → Value
  pub to_text : Value → Text

abbrev pub text_or : Text → Option Text → Text
text_or default none = default
text_or default (some t) = t

abbrev pub number_or : ℕ → Option ℕ → ℕ
number_or default none = default
number_or default (some n) = n

abbrev then_some : {A B : Type 0} → (A → Option B) → Option A → Option B
then_some f none = none
then_some f (some a) = f a

-- `n.clamp(low, high)`
abbrev pub clamp : ℕ → ℕ → ℕ → ℕ
clamp low high n = if ltb n low then low else if ltb high n then high else n

abbrev search_line : Text → ℕ → Text
search_line query i =
    ascii "[doc-"
    ++ decimal i
    ++ utf8 "] 关于「"
    ++ query
    ++ utf8 "」的检索结果：OpenHarmony 是面向万物智联时代的开源操作系统，支持分布式软总线、跨设备协同与统一生态。本片段为知识库中与查询相关的文档内容，段落编号 "
    ++ decimal i
    ++ utf8 "，包含背景介绍、接口说明与示例代码。\n"

-- The loop of `kb.search`, over the numbers from `i` on.
unfoldable pub search_text : Text → ℕ → ℕ → Text
search_text query i zero = []
search_text query i (suc n) = search_line query i ++ search_text query (suc i) n

abbrev pub dump_line : Text → ℕ → Text
dump_line doc_id i =
    ascii "["
    ++ doc_id
    ++ ascii "#"
    ++ decimal i
    ++ utf8 "] OpenHarmony 分布式软总线提供设备发现、连接、组网与传输能力，应用无需关心底层通信细节即可实现跨设备调用。本段为文档正文第 "
    ++ decimal i
    ++ utf8 " 段，含接口定义、参数说明、错误码表与示例代码片段。\n"

abbrev pub blob_line : ℕ → ℕ → Text
blob_line seed i =
    ascii "[blob#"
    ++ decimal seed
    ++ ascii ":"
    ++ decimal i
    ++ utf8 "] OpenHarmony 泛在 OS 原生 MCP 大 payload 传输样本段落，含接口定义、参数说明与示例代码，用于衡量共享内存通道随负载扩展性。\n"

-- `while out.len() < size`: a line more in each round.
unfoldable pub fill : ℕ → (ℕ → Text) → ℕ → ℕ → Text → Text
fill zero line size i out = out
fill (suc fuel) line size i out =
    let more = fill fuel line size (suc i) (out ++ line i) in
    if ltb (length out) size then more else out

-- How far the loop before `truncate` goes: to the next byte that begins a character.
unfoldable pub to_boundary : Text → ℕ
to_boundary [] = 0
to_boundary (b ∷ rest) = let more = suc (to_boundary rest) in if is_continuation b then more else 0

unfoldable pub cut_at : ℕ → Text → Text
unfolding to_boundary
cut_at size out = take (size + to_boundary (drop size out)) out

abbrev pub summarize_prompt : Prompt
summarize_prompt = record {
  name = ascii "summarize";
  description = some (utf8 "生成文本摘要指令");
  arguments =
      record { name = ascii "text"; description = some (utf8 "待摘要的原文"); required = true } ∷ [];
}

module _ {Value : Type 0} (json : Json Value) where
  abbrev pub str_or : Text → Text → Value → Text
  str_or name default args = text_or default (then_some json.as_str (json.member name args))

  abbrev u64_or : Text → ℕ → Value → ℕ
  u64_or name default args = number_or default (then_some json.as_u64 (json.member name args))

  unfoldable pub echo : ToolHandler Value
  echo args = text_result (str_or (ascii "msg") [] args)

  unfoldable pub kb_search : ToolHandler Value
  kb_search args =
      text_result (search_text (str_or (ascii "query") [] args) 0 (u64_or (ascii "top_k") 5 args))

  -- Each round of the loop adds at least one byte, so the size is fuel enough.
  unfoldable pub kb_dump : ToolHandler Value
  unfolding fill
  kb_dump args =
      text_result (fill 65536 (dump_line (str_or (ascii "doc_id") (ascii "0") args)) 65536 0 [])

  abbrev pub asked_kb : Value → ℕ
  asked_kb args = u64_or (ascii "size_kb") 64 args

  abbrev pub blob_size : Value → ℕ
  blob_size args = clamp 1 4096 (asked_kb args) * 1024

  abbrev pub blob_seed : Value → ℕ
  blob_seed args = u64_or (ascii "seed") 0 args

  abbrev pub blob_filled : Value → Text
  blob_filled args = fill (blob_size args) (blob_line (blob_seed args)) (blob_size args) 0 []

  unfoldable pub kb_blob : ToolHandler Value
  unfolding fill cut_at
  kb_blob args = text_result (cut_at (blob_size args) (blob_filled args))

  unfoldable pub device_status : ToolHandler Value
  device_status args = text_result (
      json.to_text (
        json.object (
          (ascii "device_id", json.string (str_or (ascii "device_id") (ascii "local") args))
          ∷ (ascii "cpu_load", json.literal (ascii "0.42"))
          ∷ (ascii "mem_free_mb", json.literal (ascii "1024"))
          ∷ (ascii "battery", json.literal (ascii "87"))
          ∷ (ascii "network", json.string (ascii "wifi"))
          ∷ [])))

  abbrev keep_some : {A B : Type 0} → (A → Option B) → List A → List B
  keep_some f [] = []
  keep_some f (a ∷ as') = elim (f a) [ none ↦ keep_some f as' | some b ↦ b ∷ keep_some f as' ]

  abbrev sum_of : Option (List Value) → json.Float
  sum_of none = json.zero_float
  sum_of (some vs) = json.sum (keep_some json.as_f64 vs)

  unfoldable pub math_sum : ToolHandler Value
  math_sum args =
      text_result
        (json.display (sum_of (then_some json.as_array (json.member (ascii "values") args))))

  unfoldable pub summarize : PromptHandler Value
  summarize args = record {
    description = some (utf8 "摘要指令");
    messages =
        record {
          role = ascii "user";
          content = text (utf8 "请用三句话以内总结以下内容：\n" ++ str_or (ascii "text") [] args);
        }
        ∷ [];
  }
