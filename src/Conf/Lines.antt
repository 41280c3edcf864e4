-- ===== src/Conf/Lines.antt =====
-- src/conf/conf_file.c: one line of [formats] or of [outputs].
use hpulogc.Prelude.{
  ℕ, ◌+◌, ◌*◌, Bool, true, false, ◌&&◌, ◌||◌, not, List, [], ◌∷◌, ◌++◌, Option, none, some,
  if◌then◌else◌, ltb, ◌==◌, length, Bytes, codes, same, pos,
}
use hpulogc.Conf.Result.{Result, ok, err, ◌>>=◌, ◌>>◌, guard, or_fail, err_config}
use hpulogc.Conf.Model.{
  max_outputs, max_name_len, max_path_len, max_fmt_len, max_sink_kv, is_num, Output, ConfOutput,
  Conf,
}
use hpulogc.Conf.Declared.{store_pair, generic_output}
use hpulogc.Conf.Values.{
  eqcase, parse_bool, parse_size, strip_quotes, split_csv, trim, clipped, clamped, octal_mode,
}
use hpulogc.Conf.Global.{keyword, clamp_size}

-- `hpu_conf_find_output`: the first output of this name, from index `i` on.
unfoldable pub find_output : ℕ → List ConfOutput → Bytes → Option ℕ
find_output i [] name = none
find_output i (o ∷ os) name = if same o.name_buf name then some i else find_output (i + 1) os name

-- `hpu_conf_find_format`: whether there is one of this name.
unfoldable pub has_format : List (Bytes × Bytes) → Bytes → Bool
has_format [] name = false
has_format ((n, t) ∷ fs) name = same n name || has_format fs name

-- The bytes before the first of this byte, and those behind it.
unfoldable pub split_at : ℕ → Bytes → Option (Bytes × Bytes)
split_at b [] = none
split_at b (c ∷ s) =
    if c == b
    then some ([], s)
    else elim (split_at b s) [ none ↦ none | some (k, v) ↦ some (c ∷ k, v) ]

-- The same at the last one.
unfoldable pub split_last : ℕ → Bytes → Option (Bytes × Bytes)
split_last b [] = none
split_last b (c ∷ s) = elim (split_last b s) [
  | some (k, v) ↦ some (c ∷ k, v)
  | none ↦ (if c == b then some ([], s) else none)
]

-- `hpu_format_compile` accepts this name and template.
module _ (compiles : Bytes → Bytes → Bool) where
  unfoldable pub parse_formats : Conf → Bytes → Bytes → Result Conf
  parse_formats c key v = do
    guard (ltb (length key) max_name_len) err_config
    guard (not (has_format c.formats key)) err_config
    guard (ltb (length v) max_fmt_len) err_config
    guard (compiles key v) err_config
    ok (record c { formats = c.formats ++ (key, v) ∷ [] })

-- A key of the flat kinds, console and file.
unfoldable pub flat_key : Bool → ConfOutput → Bytes → Bytes → Result ConfOutput
flat_key strict o k v =
    let d = o.desc in
    if same k (codes "stream")
    then (do
      x ← keyword (codes "stdout" ∷ codes "stderr" ∷ []) v
      ok (record o { desc = record d { stream = pos x } }))
    else if same k (codes "color")
    then (do
      x ← or_fail (parse_bool v) err_config
      ok (record o { desc = record d { color = pos (if x then 1 else 0) } }))
    else if same k (codes "path")
    then (do
      guard (ltb (length v) max_path_len) err_config
      ok (record o { path_buf = v; desc = record d { path = some v } }))
    else if same k (codes "rotate")
    then (do
      x ← keyword (codes "none" ∷ codes "size" ∷ codes "time" ∷ codes "both" ∷ []) v
      ok (record o { desc = record d { rotate = pos x } }))
    else if same k (codes "max size")
    then (do
      n ← or_fail (parse_size v) err_config
      ok (record o { desc = record d { max_size = n } }))
    else if same k (codes "time unit")
    then (do
      x ← keyword (codes "hour" ∷ codes "day" ∷ codes "week" ∷ codes "month" ∷ []) v
      ok (record o { desc = record d { time_unit = pos x } }))
    else if same k (codes "max files")
    then ok (record o { desc = record d { max_files = pos (clamped v 0 100000) } })
    else if same k (codes "fsync")
    then (do
      x ← or_fail (parse_bool v) err_config
      ok (record o { desc = record d { fsync = pos (if x then 1 else 0) } }))
    else if same k (codes "symlink latest")
    then (do
      x ← or_fail (parse_bool v) err_config
      ok (record o { desc = record d { symlink_latest = pos (if x then 1 else 0) } }))
    else if same k (codes "rotate naming")
    then (do
      guard (ltb (length v) max_fmt_len) err_config
      ok (record o { naming_buf = v; desc = record d { rotate_naming = some v } }))
    else if same k (codes "file perms")
    then ok (record o { desc = record d { file_mode = octal_mode v } })
    else if same k (codes "dir perms")
    then ok (record o { desc = record d { dir_mode = octal_mode v } })
    else if strict
    then err err_config
    else ok o

-- A key of an output: the common ones, those that a generic sink keeps, or those of the flat kinds.
unfoldable pub output_key : Bool → ConfOutput → Bytes → Bytes → Result ConfOutput
output_key strict o k v =
    if same k (codes "enabled")
    then (do x ← or_fail (parse_bool v) err_config; ok (record o { enabled = x }))
    else if same k (codes "async")
    then (do x ← keyword (codes "off" ∷ codes "on" ∷ []) v; ok (record o { async = not (x == 0) }))
    else if same k (codes "queue size")
    then (do
      n ← or_fail (parse_size v) err_config
      ok (record o { queue_size = clamp_size (64 * 1024) (16 * 1024 * 1024) n }))
    else if o.is_generic
    then (do
      guard (ltb (length o.kvs) max_sink_kv) err_config
      or_fail (store_pair o k v) err_config)
    else flat_key strict o k v

unfoldable pub output_keys : Bool → ConfOutput → List Bytes → Result ConfOutput
output_keys strict o [] = ok o
output_keys strict o (p ∷ ps) = do
  (k, v) ← or_fail (split_at 61 p) err_config
  o' ← output_key strict o (trim k) (strip_quotes (trim v))
  output_keys strict o' ps

-- An output before its type and its keys: 0644 and 0755.
abbrev pub new_output : Bytes → ConfOutput
new_output name =
    let o = generic_output name [] in
    record o { is_generic = false; desc = record o.desc { file_mode = 420; dir_mode = 493 } }

abbrev pub default_naming : Bytes
default_naming = codes "{base}.{timestamp}.{index}.log"

abbrev pub named_archive : ConfOutput → ConfOutput
named_archive o = elim o.desc.rotate_naming [
  | some t ↦ o
  | none ↦ record o {
    naming_buf = default_naming;
    desc = record o.desc { rotate_naming = some default_naming };
  }
]

abbrev pub has_path : Output → Bool
has_path d = elim d.path [ none ↦ false | some p ↦ true ]

-- A file output has a path, and a flat one a naming template.
unfoldable pub finish_output : ConfOutput → Result ConfOutput
finish_output o =
    if o.is_generic
    then ok o
    else (if is_num o.desc.type 1 && not (has_path o.desc)
        then err err_config
        else ok (named_archive o))

abbrev pub fresh_name : Conf → Bytes → Bool
fresh_name c name = elim (find_output 0 c.outputs name) [ none ↦ true | some k ↦ false ]

-- `registered` is `hpu_sink_registry_find`.
module _ (registered : Bytes → Bool) where
  unfoldable pub output_type : ConfOutput → Bytes → Result ConfOutput
  output_type o type =
      if eqcase type (codes "console")
      then ok (record o { desc = record o.desc { type = pos 0 } })
      else if eqcase type (codes "file")
      then ok (record o { desc = record o.desc { type = pos 1 } })
      else if eqcase type (codes "syslog") || eqcase type (codes "null") || registered type
      then ok (record o { is_generic = true; type_name = clipped max_name_len type })
      else err err_config

  unfoldable pub output_parts : Bool → Bytes → List Bytes → Result ConfOutput
  output_parts strict name [] = err err_config
  output_parts strict name (t ∷ parts) = do
    o ← output_type (new_output name) (trim t)
    o' ← output_keys strict o parts
    finish_output o'

  unfoldable pub parse_outputs : Bool → Conf → Bytes → Bytes → Result Conf
  parse_outputs strict c key v = do
    guard (fresh_name c key) err_config
    guard (ltb (length key) max_name_len) err_config
    guard (ltb (length c.outputs) max_outputs) err_config
    o ← output_parts strict key (split_csv v 32)
    ok (record c { outputs = c.outputs ++ o ∷ [] })
