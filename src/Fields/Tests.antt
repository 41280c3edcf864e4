-- ===== src/Fields/Tests.antt =====
-- src/format/format.c and src/output/output.c at concrete inputs: structured fields.
use hpulogc.Prelude.{
  ◌+◌, ◌≤◌, ◌<◌, ◌≡◌, refl, true, ◌⊎◌, ◌%◌, List, [], ◌∷◌, ◌++◌, none, some, arith, length, Bytes,
}
use hpulogc.Memory.{le_bytes}
use hpulogc.Fields.Wire.{Entry, spans, span, unpack, rows}
use hpulogc.Fields.Reads.{ReadsAt}
use hpulogc.Fields.Serialize.{
  flag, text, Field, encode, append_field, serialize_one, serialize_all, pad_to_8, serialize,
}
use hpulogc.Fields.Filter.{installed, Filtered, filtered, untouched, filter_apply}
use hpulogc.Fields.RoundTrip.{unpack-serialize}
use hpulogc.Fields.Added.{Keeps}
use hpulogc.Fields.Keys.{parse_filter_keys, tokens, token_from, skip_blanks, before_comma, trim_end}
use hpulogc.Fields.Listed.{IsKey, parse_filter_keys-join}
use hpulogc.Prelude.{codes}
use hpulogc.Fields.Filtered.{filter_apply-kept, filter_apply_overruns}
use hpulogc.Fields.Kept.{kept, removals, listed}

-- "k" with the text "v", and a field without a key
abbrev given : List Field
given =
    record { key = some (107 ∷ []); value = text (some (118 ∷ [])) }
    ∷ record { key = none; value = flag 1 }
    ∷ []

abbrev region : Bytes
region = 1 ∷ 0 ∷ 4 ∷ 0 ∷ 1 ∷ 0 ∷ 107 ∷ 118 ∷ []

serialize-given : serialize given 64 64 ≡ some (region, 1, 1)
unfolding serialize serialize_all serialize_one append_field encode pad_to_8 span le_bytes
serialize-given = refl

-- The fields "k" and "q", of which a sink lists "k".
abbrev two_entries : List Entry
two_entries =
    record { key = 107 ∷ []; tag = 4; value = 118 ∷ [] }
    ∷ record { key = 113 ∷ []; tag = 3; value = 1 ∷ 1 ∷ [] }
    ∷ []

abbrev list_k : List Bytes
list_k = (107 ∷ []) ∷ []

-- A list of "q", whose span of 9 bytes does not end at a multiple of 8.
abbrev list_q : List Bytes
list_q = (113 ∷ []) ∷ []

unpack-serialize_example :
    (es : List Entry) × Keeps 64 0 0 given es 1
    × (1 ≡ length es)
    × (1 ≤ 16)
    × (length (spans es) ≤ 64)
    × (length region ≤ 64)
    × ((length region % 8 ≡ 0) ⊎ (length region ≡ 64))
    × ((behind : Bytes) × (region ≡ spans es ++ behind))
    × ReadsAt region 0 es
    × (unpack 1 16 region ≡ rows 0 es)
unpack-serialize_example = unpack-serialize given 64 64 serialize-given

filter_apply-kept_example :
    (removals list_k two_entries ≡ 0
      → filter_apply (installed list_k) true 0 (spans two_entries ++ []) 2 ≡ untouched)
    × (0 < removals list_k two_entries
        → (v : Filtered) × (filter_apply (installed list_k) true 0 (spans two_entries ++ []) 2
            ≡ filtered v)
          × (v.fields ≡ rows 0 (kept list_k two_entries))
          × ReadsAt v.wire 0 (kept list_k two_entries)
          × (length v.fields + v.removed ≡ 2)
          × (length v.wire % 8 ≡ 0))
filter_apply-kept_example =
    filter_apply-kept (107 ∷ []) [] two_entries [] 0 (omega arith, tt)
      ((omega arith, omega arith), ((omega arith, omega arith), tt))
      (omega arith, (omega arith, tt)) (omega arith)

one_removed : removals list_q two_entries ≡ 1
unfolding removals listed
one_removed = refl

spans-kept : length (spans (kept list_q two_entries)) ≡ 9
unfolding kept listed span le_bytes
spans-kept = refl

filter_apply_overruns_example :
    (v : Filtered) × (filter_apply (installed list_q) true 0 (spans two_entries ++ []) 2
      ≡ filtered v)
    × (v.scratch_cap < v.written)
filter_apply_overruns_example =
    filter_apply_overruns (113 ∷ []) [] two_entries [] 0 (omega arith, tt)
      ((omega arith, omega arith), ((omega arith, omega arith), tt))
      (omega arith, (omega arith, tt)) (rw one_removed (omega arith)) (rw spans-kept (omega arith))
      (rw spans-kept (omega arith))

abbrev two_keys : List Bytes
two_keys = codes "user" ∷ codes "id" ∷ []

-- blanks round the keys and a comma at the end are let through, an empty key is not
parse_filter_keys_test :
    (parse_filter_keys (some (codes " user , id,")) ≡ some (installed two_keys))
    × (parse_filter_keys (some (codes "user,,id")) ≡ none)
    × (parse_filter_keys (some []) ≡ some [])
unfolding parse_filter_keys tokens token_from skip_blanks before_comma trim_end
parse_filter_keys_test = (refl, refl, refl)

user-IsKey : IsKey (codes "user")
user-IsKey = ground arith

id-IsKey : IsKey (codes "id")
id-IsKey = ground arith

parse_filter_keys-join_example :
    parse_filter_keys (some (codes "user,id")) ≡ some (installed two_keys)
parse_filter_keys-join_example =
    parse_filter_keys-join two_keys (omega arith) (user-IsKey, (id-IsKey, tt))
