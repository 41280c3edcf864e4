-- ===== src/Conf/Global.antt =====
-- src/conf/conf_file.c: the sections [global], [buffer], [async], [throttle] and [advanced]. A section
-- answers with the new snapshot; of one that fails the snapshot is given up.
use hpulogc.Prelude.{
  ℕ, Bool, true, false, ◌||◌, not, List, [], ◌∷◌, ◌++◌, if◌then◌else◌, leb, ltb, ◌==◌, length,
  Bytes, codes, same, pos,
}
use hpulogc.Conf.Result.{Result, ok, err, ◌>>=◌, ◌>>◌, guard, or_fail, err_config}
use hpulogc.Conf.Model.{
  max_outputs, max_name_len, max_path_len, max_fmt_len, max_consumers, buffer_max, Conf,
}
use hpulogc.Conf.Values.{
  eqcase, index_of, parse_bool, parse_level, parse_size, strip_quotes, split_csv, trim, clipped,
  clamped,
}

-- What the build leaves out: `HPULOGC_ENABLE_SOURCE_LOC`, `HPULOGC_ENABLE_HOT_RELOAD`,
-- `HPULOGC_ENABLE_ASYNC` and `HPULOGC_ENABLE_THROTTLE`.
pub record Build : Type 0 where
  pub source_loc : Bool
  pub hot_reload : Bool
  pub has_async : Bool
  pub has_throttle : Bool

-- An unknown key fails in strict mode.
abbrev pub unknown : Bool → Conf → Result Conf
unknown strict c = if strict then err err_config else ok c

-- One of these keywords, by its index, or a failure.
abbrev pub keyword : List Bytes → Bytes → Result ℕ
keyword names v = or_fail (index_of 0 names v) err_config

-- The names of a list, without the empty ones, behind `names`.
unfoldable pub add_default_names : List Bytes → List Bytes → Result (List Bytes)
add_default_names names [] = ok names
add_default_names names (p ∷ ps) =
    let name = strip_quotes (trim p) in
    let skipped = add_default_names names ps in
    let added = add_default_names (names ++ clipped max_name_len name ∷ []) ps in
    if length name == 0
    then skipped
    else (if leb max_outputs (length names) then err err_config else added)

unfoldable pub parse_global : Build → Bool → Conf → Bytes → Bytes → Result Conf
parse_global b strict c key v =
    if same key (codes "strict init")
    then (do x ← or_fail (parse_bool v) err_config; ok (record c { strict_init = x }))
    else if same key (codes "level")
    then (do x ← or_fail (parse_level v) err_config; ok (record c { level = x }))
    else if same key (codes "default format")
    then ok (record c { default_format = clipped max_name_len v })
    else if same key (codes "default outputs")
    then (do
      names ← add_default_names c.default_output_names (split_csv v max_outputs)
      ok (record c { default_output_names = names }))
    else if same key (codes "timezone")
    then (do
      x ← keyword (codes "local" ∷ codes "utc" ∷ []) v
      ok (record c { use_utc = not (x == 0) }))
    else if same key (codes "timestamp source")
    then (do
      x ← keyword (codes "realtime" ∷ codes "monotonic" ∷ []) v
      ok (record c { timestamp_source = x }))
    else if same key (codes "time format")
    then ok (record c { time_format = clipped max_fmt_len v })
    else if same key (codes "encoding")
    then (do guard (eqcase v (codes "utf-8") || eqcase v (codes "utf8")) err_config; ok c)
    else if same key (codes "capture source loc")
    then (if b.source_loc
        then (do x ← or_fail (parse_bool v) err_config; ok (record c { capture_source_loc = x }))
        else ok c)
    else if same key (codes "newline")
    then (do
      x ← keyword (codes "auto" ∷ codes "lf" ∷ codes "crlf" ∷ []) v
      ok (record c { newline_style = x }))
    else if same key (codes "pid format")
    then (do
      x ← keyword (codes "decimal" ∷ codes "hex" ∷ codes "none" ∷ []) v
      ok (record c { pid_fmt = x }))
    else if same key (codes "tid format")
    then (do
      x ← keyword (codes "decimal" ∷ codes "hex" ∷ codes "none" ∷ []) v
      ok (record c { tid_fmt = x }))
    else if same key (codes "hot reload interval")
    then ok (record c { hot_reload_interval = clamped v 0 86400 })
    else if same key (codes "signal reload")
    then (if b.hot_reload
        then (do x ← or_fail (parse_bool v) err_config; ok (record c { signal_reload = x }))
        else ok c)
    else unknown strict c

abbrev pub clamp_size : ℕ → ℕ → ℕ → ℕ
clamp_size lo hi n = if ltb n lo then lo else (if ltb hi n then hi else n)

unfoldable pub parse_buffer_key : Bool → Conf → Bytes → Bytes → Result Conf
parse_buffer_key strict c key v =
    if same key (codes "buffer size")
    then (do
      n ← or_fail (parse_size v) err_config
      ok (record c { buffer_size = clamp_size 4096 buffer_max n }))
    else if same key (codes "overflow policy")
    then (do
      x ← keyword (codes "discard" ∷ codes "overwrite" ∷ codes "wait" ∷ []) v
      ok (record c { overflow_policy = x }))
    else unknown strict c

unfoldable pub parse_async : Bool → Conf → Bytes → Bytes → Result Conf
parse_async strict c key v =
    if same key (codes "batch size")
    then ok (record c { batch_size = clamped v 1 65535 })
    else if same key (codes "flush interval")
    then ok (record c { flush_interval_ms = clamped v 1 60000 })
    else if same key (codes "shutdown timeout")
    then ok (record c { shutdown_timeout_ms = clamped v 0 3600000 })
    else if same key (codes "consumer threads")
    then ok (record c { consumer_threads = clamped v 1 max_consumers })
    else unknown strict c

-- `divisor` is `sampling_n` of a text, computed in floats.
unfoldable pub parse_throttle : (Bytes → ℕ) → Bool → Conf → Bytes → Bytes → Result Conf
parse_throttle divisor strict c key v =
    if same key (codes "global rate limit")
    then ok (record c { global_rate = clamped v 0 1000000000 })
    else if same key (codes "per category rate limit")
    then ok (record c { per_category_rate = clamped v 0 1000000000 })
    else if same key (codes "sampling rate")
    then ok (record c { sampling_n = divisor v })
    else if same key (codes "burst size")
    then ok (record c { burst = clamped v 1 1000000000 })
    else unknown strict c

abbrev flag : Bool → ℕ
flag true = 1
flag false = 0

unfoldable pub parse_advanced : Bool → Conf → Bytes → Bytes → Result Conf
parse_advanced strict c key v =
    if same key (codes "escape injection")
    then (do
      x ← or_fail (parse_bool v) err_config
      ok (record c { escape_injection = pos (flag x) }))
    else if same key (codes "max log length")
    then ok (record c { max_log_length = clamped v 256 65536 })
    else if same key (codes "truncation marker")
    then (do guard (ltb (length v) max_fmt_len) err_config; ok (record c { truncation_marker = v }))
    else if same key (codes "fork behavior")
    then (do
      x ← keyword (codes "reinit" ∷ codes "disable" ∷ codes "inherit" ∷ []) v
      ok (record c { fork_behavior = x }))
    else if same key (codes "signal safe")
    then (do x ← or_fail (parse_bool v) err_config; ok (record c { signal_safe = pos (flag x) }))
    else if same key (codes "crash safety")
    then (do
      x ← keyword (codes "none" ∷ codes "periodic" ∷ codes "entry" ∷ codes "shutdown" ∷ []) v
      ok (record c { crash_safety = x }))
    else if same key (codes "stats interval")
    then ok (record c { stats_interval = clamped v 0 86400 })
    else if same key (codes "stats output")
    then (do
      x ← keyword (codes "stderr" ∷ codes "file" ∷ []) v
      ok (record c { stats_output_file = not (x == 0) }))
    else if same key (codes "stats file")
    then (do guard (ltb (length v) max_path_len) err_config; ok (record c { stats_file = v }))
    else unknown strict c
