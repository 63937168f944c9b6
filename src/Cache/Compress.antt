-- ===== src/Cache/Compress.antt =====
-- crates/ohmcp-cache/src/compress.rs. The two functions of lz4_flex are a parameter.
use ohmcp.Base.{
  arith, List, not, false, true, Bool, ◌≡◌, ◌<◌, ◌≤◌, ℕ, length, if◌then◌else◌, ltb, Result, ok,
}
use ohmcp.Base.Bytes.{Text}

-- `compress_prepend_size` and `decompress_size_prepended`: what was compressed is restored.
pub record Lz4 : Type 0 where
  pub compress_prepend_size : List ℕ → List ℕ
  pub decompress_size_prepended : List ℕ → Result Text (List ℕ)
  pub restores : (d : List ℕ) → decompress_size_prepended (compress_prepend_size d) ≡ ok d

abbrev pub compress_threshold : ℕ
compress_threshold = 512

module _ (lz4 : Lz4) where
  open lz4 use {compress_prepend_size, decompress_size_prepended, restores}

  -- The data, and whether it is compressed.
  unfoldable pub maybe_compress : List ℕ → List ℕ × Bool
  maybe_compress payload =
      if ltb (length payload) compress_threshold
      then (payload, false)
      else if ltb (length (compress_prepend_size payload)) (length payload)
      then (compress_prepend_size payload, true)
      else (payload, false)

  unfoldable pub maybe_decompress : List ℕ → Bool → Result Text (List ℕ)
  maybe_decompress payload compressed =
      if not compressed then ok payload else decompress_size_prepended payload

  -- Compression is undone by the flag that it returned, it never makes a payload longer, and a
  -- payload below the threshold is left as it is.
  pub maybe_decompress-maybe_compress :
      (d : List ℕ)
      → let (sent, flag) = maybe_compress d in
        (maybe_decompress sent flag ≡ ok d)
        × (length sent ≤ length d)
        × (length d < compress_threshold → (sent ≡ d) × (flag ≡ false))
  unfolding maybe_compress maybe_decompress
  maybe_decompress-maybe_compress d = ground (arith, restores d)
