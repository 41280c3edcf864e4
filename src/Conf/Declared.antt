-- ===== src/Conf/Declared.antt =====
-- src/conf/conf_model.c, the sink declarations of `hpu_conf_from_code`, with `hpu_parse_size_str` of
-- src/output/output.c.
use hpulogc.Prelude.{
  ℕ, ◌+◌, ◌-◌, ◌*◌, ◌%◌, ◌^◌, Bool, true, false, ◌&&◌, ◌||◌, List, [], ◌∷◌, ◌++◌, Option, none,
  some, if◌then◌else◌, leb, ltb, ◌==◌, length, Bytes, codes, same, pos,
}
use hpulogc.Conf.Result.{Result, ok, ◌>>=◌, ◌>>◌, guard, or_fail, err_invalid_arg}
use hpulogc.Conf.Model.{max_name_len, max_sink_kv, sink_kv_pool, SinkDecl, ConfOutput}
use hpulogc.Fields.Keys.{skip_blanks}

abbrev pub is_digit : ℕ → Bool
is_digit c = leb 48 c && leb c 57

-- The digits at the start in 64 bits, on from a value; how many there are; and what follows.
unfoldable pub size_digits : ℕ → ℕ → Bytes → ℕ × ℕ × Bytes
size_digits v n [] = (v, n, [])
size_digits v n (c ∷ s) =
    let more = size_digits ((v * 10 + (c - 48)) % 2 ^ 64) (n + 1) s in
    if is_digit c then more else (v, n, c ∷ s)

-- `(c | 0x20) == k`, for a small letter `k`
abbrev pub letter : ℕ → ℕ → Bool
letter k c = c == k || c == k - 32

unfoldable pub size_unit : Bytes → Option ℕ
size_unit [] = some 1
size_unit (c ∷ []) =
    if letter b'k' c
    then some 1000
    else (if letter b'm' c then some 1000000 else (if letter b'g' c then some 1000000000 else none))
size_unit (c ∷ d ∷ []) =
    if letter b'k' c && letter b'b' d
    then some 1024
    else (if letter b'm' c && letter b'b' d
        then some 1048576
        else (if letter b'g' c && letter b'b' d then some 1073741824 else none))
size_unit (c ∷ d ∷ e ∷ s) = none

-- `hpu_parse_size_str`
unfoldable pub parse_size_str : Bytes → Option ℕ
parse_size_str s =
    let (v, n, rest) = size_digits 0 0 (skip_blanks s) in
    if n == 0
    then none
    else elim (size_unit (skip_blanks rest)) [ none ↦ none | some mult ↦ some (v * mult % 2 ^ 64) ]

-- A sink of the generic kind before its parameters.
abbrev pub generic_output : Bytes → Bytes → ConfOutput
generic_output name type = record {
  desc = record {
    type = pos 0;
    stream = pos 0;
    color = pos 0;
    path = none;
    rotate = pos 0;
    max_size = 0;
    time_unit = pos 0;
    max_files = pos 0;
    fsync = pos 0;
    symlink_latest = pos 0;
    rotate_naming = none;
    file_mode = 0;
    dir_mode = 0;
  };
  name_buf = name;
  path_buf = [];
  naming_buf = [];
  handle = none;
  is_generic = true;
  type_name = type;
  kvs = [];
  kv_pool_len = 0;
  enabled = true;
  async = false;
  queue_size = 0;
}

-- `o->kv_pool_len + klen + vlen + 2 > sizeof(o->kv_pool)`, or the pair in the pool.
unfoldable pub store_pair : ConfOutput → Bytes → Bytes → Option ConfOutput
store_pair o key val =
    if ltb sink_kv_pool (o.kv_pool_len + length key + length val + 2)
    then none
    else some (record o {
      kvs = o.kvs ++ (key, val) ∷ [];
      kv_pool_len = o.kv_pool_len + length key + length val + 2;
    })

abbrev pub on_or_true : Bytes → Bool
on_or_true v = same v (codes "true") || same v (codes "on")

-- One key with its value.
unfoldable pub sink_pair : ConfOutput → Bytes → Bytes → Result ConfOutput
sink_pair o key val =
    if same key (codes "enabled")
    then ok (record o { enabled = on_or_true val })
    else if same key (codes "async")
    then ok (record o { async = on_or_true val })
    else if same key (codes "queue size")
    then (do
      size ← or_fail (parse_size_str val) err_invalid_arg
      ok (record o { queue_size = size }))
    else or_fail (store_pair o key val) err_invalid_arg

unfoldable pub sink_pairs : ConfOutput → List (Option Bytes × Option Bytes) → Result ConfOutput
sink_pairs o [] = ok o
sink_pairs o ((k, v) ∷ kvs) = do
  key ← or_fail k err_invalid_arg
  val ← or_fail v err_invalid_arg
  o' ← sink_pair o key val
  sink_pairs o' kvs

-- A name that is given, not empty, and fits.
abbrev pub named : Option Bytes → Option Bytes
named none = none
named (some []) = none
named (some (c ∷ s)) = if ltb (length (c ∷ s)) max_name_len then some (c ∷ s) else none

unfoldable pub code_sink : SinkDecl → Result ConfOutput
code_sink d = do
  name ← or_fail (named d.name) err_invalid_arg
  type ← or_fail (named d.type) err_invalid_arg
  guard (leb (length d.pairs) max_sink_kv) err_invalid_arg
  sink_pairs (generic_output name type) d.pairs

unfoldable pub code_sinks : List SinkDecl → Result (List ConfOutput)
code_sinks [] = ok []
code_sinks (d ∷ ds) = do sink ← code_sink d; sinks ← code_sinks ds; ok (sink ∷ sinks)
