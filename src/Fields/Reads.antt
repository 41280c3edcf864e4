-- ===== src/Fields/Reads.antt =====
-- src/format/format.c, `hpu_fields_unpack`: what stands at the addresses that it hands out.
use hpulogc.Prelude.{ℕ, ◌+◌, ◌≡◌, ◌∙◌, List, [], ◌∷◌, ◌++◌, length, take, drop, drop-add, Bytes}
use mathlib.Core.List.{append_assoc}
use hpulogc.Fields.Wire.{Entry, span, spans, drop-span, key_part, value_part}

-- Whoever knows the lengths of a key and of a value reads them at the addresses of their field.
abbrev pub ReadsAt : Bytes → ℕ → List Entry → Type 0
ReadsAt wire off [] = Unit
ReadsAt wire off (e ∷ es) =
    (take (length e.key) (drop (off + 6) wire) ≡ e.key)
    × (take (length e.value) (drop (off + (6 + length e.key)) wire) ≡ e.value)
    × ReadsAt wire (off + (6 + length e.key + length e.value)) es

pub ReadsAt-spans :
    (wire : Bytes) (off : ℕ) (es : List Entry) (behind : Bytes)
    → drop off wire ≡ spans es ++ behind
    → ReadsAt wire off es
ReadsAt-spans wire off [] behind h = tt
ReadsAt-spans wire off (e ∷ es) behind h =
    let rest = spans es ++ behind in
    let here : drop off wire ≡ span e ++ rest = h ∙ append_assoc (span e) (spans es) behind in
    (
      rw (drop-add off 6, here) (key_part e rest),
      rw (drop-add off (6 + length e.key), here) (value_part e rest),
      ReadsAt-spans wire (off + (6 + length e.key + length e.value)) es behind
          (rw (drop-add off (6 + length e.key + length e.value), here) (drop-span e rest)),
    )
