-- ===== src/Tests/BuiltinRuns.antt =====
-- The built-in tools.
use ohmcp.Server.Builtin.Blob.{kb_dump-kb_blob, Begins, Continues, Filled}
use ohmcp.Base.Maps.{insert, lookup}
use ohmcp.Server.Builtin.{blob_line, dump_line, to_boundary, cut_at, Json, kb_dump, kb_blob}
use ohmcp.Server.Tools.{register_prompt, register_resource, register, text_result, is_cacheable}
use ohmcp.Base.Bytes.{Text, ascii}
use ohmcp.Base.Utf8.{decimal, utf8}
use ohmcp.Server.Builtin.Registry.{builtin_registry}
use ohmcp.Base.{◌++◌, false, true, refl, ◌≡◌, ◌≤◌, ℕ, All, drop, length, none, some, [], ◌∷◌}
use ohmcp.Base.Equality.{text_equality}

-- A value is a number that is every member of itself, and no text.
abbrev numbers : Json ℕ
numbers = record {
  Float = ℕ;
  member = λ name v. some v;
  as_str = λ v. none;
  as_u64 = λ v. some v;
  as_array = λ v. some (v ∷ []);
  as_f64 = λ v. some v;
  sum = λ vs. length vs;
  zero_float = 0;
  display = λ v. decimal v;
  literal = λ t. length t;
  string = λ t. length t;
  object = λ m. length m;
  to_text = λ v. decimal v;
}

decimal_digits : decimal 1204 ≡ ascii "1204"
unfolding decimal
decimal_digits = refl

three_bytes : utf8 "「" ≡ 227 ∷ 128 ∷ 140 ∷ []
three_bytes = refl

-- A cut inside the bracket goes on to its end.
whole_character : cut_at 2 (utf8 "a「b") ≡ utf8 "a「"
unfolding cut_at to_boundary
whole_character = refl

cacheable_tools :
    (is_cacheable (ascii "kb.dump") (builtin_registry numbers) ≡ true)
    × (is_cacheable (ascii "kb.blob") (builtin_registry numbers) ≡ false)
unfolding builtin_registry is_cacheable register register_resource register_prompt lookup insert
cacheable_tools = (refl, refl)

kb_dump-kb_blob_example :
    ((t : Text) × (kb_dump numbers 2 ≡ text_result t) × Filled (dump_line (ascii "0")) 65536 t)
    × (t : Text) × (rest : Text) × (kb_blob numbers 2 ≡ text_result t)
    × (1024 ≤ 2048)
    × (2048 ≤ 4194304)
    × (2048 ≤ length t)
    × All Continues (drop 2048 t)
    × Filled (blob_line 2) 2048 (t ++ rest)
    × Begins rest
kb_dump-kb_blob_example = kb_dump-kb_blob numbers 2
