-- ===== src/Fields/Serialize.antt =====
-- src/format/format.c, `hpu_fields_serialize`: the fields of a record into its wire region, within
-- the budgets on count, key length, value length and bytes.
use hpulogc.Prelude.{
  ℕ, zero, suc, ◌+◌, ◌%◌, Bool, true, false, ◌&&◌, ◌||◌, List, [], ◌∷◌, ◌++◌, Option, none, some,
  if◌then◌else◌, ltb, leb, ◌==◌, not, length, take, Bytes,
}
use hpulogc.Memory.{le_bytes}
use hpulogc.Fields.Wire.{Entry, span}

-- The value of a `hpulogc_field_t`; a number is its bit pattern, and `invalid` is a type tag
-- outside the enumeration.
pub data Value : Type 0 where
  i64 u64 f64 flag : ℕ → Value
  text : Option Bytes → Value
  invalid : Value

pub record Field : Type 0 where
  pub key : Option Bytes
  pub value : Value

-- `HPULOGC_MAX_FIELDS`, `HPULOGC_MAX_FIELD_KEY_LEN`, `HPULOGC_MAX_FIELD_STR_LEN`
abbrev pub max_fields : ℕ
max_fields = 16

abbrev pub max_key_len : ℕ
max_key_len = 64

abbrev pub max_str_len : ℕ
max_str_len = 256

-- The tag and the bytes of a value, and whether it was cut.
pub record Encoded : Type 0 where
  pub tag : ℕ
  pub bytes : Bytes
  pub cut : Bool

unfoldable pub encode : Value → Option Encoded
encode (i64 n) = some (record { tag = 0; bytes = le_bytes 8 n; cut = false })
encode (u64 n) = some (record { tag = 1; bytes = le_bytes 8 n; cut = false })
encode (f64 n) = some (record { tag = 2; bytes = le_bytes 8 n; cut = false })
encode (flag n) = some (record { tag = 3; bytes = le_bytes 1 n; cut = false })
encode (text none) = some (record { tag = 4; bytes = []; cut = false })
encode (text (some s)) =
    if ltb max_str_len (length s)
    then some (record { tag = 4; bytes = take max_str_len s; cut = true })
    else some (record { tag = 4; bytes = s; cut = false })
encode invalid = none

-- The locals of the loop; `out` is what has been written, and its length is `len`.
pub record State : Type 0 where
  pub out : Bytes
  pub cnt : ℕ
  pub drop : ℕ
  pub budget_hit : Bool

abbrev pub dropped_one : State → State
dropped_one s = record s { drop = s.drop + 1 }

abbrev pub count_cut : Bool → State → State
count_cut b s = if b then dropped_one s else s

abbrev pub entry_of : Bytes → Encoded → Entry
entry_of key v = record { key = key; tag = v.tag; value = v.bytes }

-- The budget in bytes, for a field whose value is encoded.
unfoldable pub append_field : ℕ → ℕ → Bytes → Encoded → State → State
append_field budget cap key v s =
    let need = 6 + length key + length v.bytes in
    let s' = count_cut v.cut s in
    if ltb budget (length s.out + need) || ltb cap (length s.out + need)
    then record s' { budget_hit = true; drop = s'.drop + 1 }
    else record s' { out = s.out ++ span (entry_of key v); cnt = s.cnt + 1 }

abbrev pub append_value : ℕ → ℕ → Bytes → Option Encoded → State → State
append_value budget cap key none s = dropped_one s
append_value budget cap key (some v) s = append_field budget cap key v s

abbrev pub append_key : ℕ → ℕ → Option Bytes → Value → State → State
append_key budget cap none v s = dropped_one s
append_key budget cap (some key) v s =
    if ltb max_key_len (length key) then dropped_one s else append_value budget cap key (encode v) s

-- One round of the loop.
unfoldable pub serialize_one : ℕ → ℕ → Field → State → State
serialize_one budget cap f s =
    if leb max_fields s.cnt || s.budget_hit
    then dropped_one s
    else append_key budget cap f.key f.value s

unfoldable pub serialize_all : ℕ → ℕ → List Field → State → State
serialize_all budget cap [] s = s
serialize_all budget cap (f ∷ fs) s = serialize_all budget cap fs (serialize_one budget cap f s)

-- `while (len % 8 != 0 && len < cap)`: at most 7 rounds.
unfoldable pub pad_to_8 : ℕ → ℕ → Bytes → Bytes
pad_to_8 zero cap out = out
pad_to_8 (suc fuel) cap out =
    let rest = pad_to_8 fuel cap (out ++ 0 ∷ []) in
    if not (length out % 8 == 0) && ltb (length out) cap then rest else out

abbrev pub start : State
start = record { out = []; cnt = 0; drop = 0; budget_hit = false }

-- `none` for `HPULOGC_ERR_INVALID_ARG`; else the region, its field count, and the drops.
unfoldable pub serialize : List Field → ℕ → ℕ → Option (Bytes × ℕ × ℕ)
serialize fields budget cap =
    let s = serialize_all budget cap fields start in
    if cap == 0 then none else some (pad_to_8 8 cap s.out, s.cnt, s.drop)
