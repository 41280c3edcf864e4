-- ===== src/Conf/FromCode.antt =====
-- src/conf/conf_model.c, `hpu_conf_from_code` as a whole.
use mathlib.Core.Option
use hpulogc.Prelude.{
  ℕ, ◌+◌, ◌*◌, Bool, ◌&&◌, ◌||◌, List, [], ◌∷◌, ◌++◌, Option, none, some, if◌then◌else◌, leb, ltb,
  ◌==◌, length, Bytes,
}
use hpulogc.Conf.Result.{Result, ok, ◌>>=◌, ◌>>◌, guard, err_invalid_arg}
use hpulogc.Conf.Model.{
  max_outputs, max_rules, max_name_len, max_fmt_len, max_consumers, buffer_max, up_to, number,
  Config, ConfOutput, ConfRule, Conf, max_record_size, is_num,
}
use hpulogc.Conf.Code.{default_names, code_outputs, code_rules, raised, shorter}
use hpulogc.Conf.Declared.{code_sinks}

abbrev pub or_else : Option Bytes → Bytes → Bytes
or_else none d = d
or_else (some s) d = s

abbrev pub routed : Conf → Config → List Bytes → List ConfOutput → List ConfRule → Conf
routed c cfg names outs rules = record c {
  level = number cfg.level;
  default_format = or_else cfg.default_format c.default_format;
  default_output_names = names;
  outputs = outs;
  rules = rules;
}

-- Level, defaults, outputs and rules.
unfoldable pub apply_routing : Conf → Config → Result Conf
apply_routing c cfg = do
  guard (up_to cfg.level 6) err_invalid_arg
  guard (shorter cfg.default_format max_name_len) err_invalid_arg
  guard (leb (length cfg.default_outputs) max_outputs) err_invalid_arg
  names ← default_names cfg.default_outputs
  guard (leb (length cfg.outputs) max_outputs) err_invalid_arg
  outs ← code_outputs 0 cfg.outputs
  guard (leb (length cfg.rules) max_rules) err_invalid_arg
  rules ← code_rules outs cfg.rules
  ok (routed c cfg names outs rules)

abbrev pub within : ℕ → ℕ → ℕ → Bool
within lo hi n = leb lo n && leb n hi

abbrev pub first_size : Conf → Config → ℕ
first_size c cfg =
    raised (if cfg.buffer_size == 0 then c.buffer_size else cfg.buffer_size) c.max_log_length

-- The buffer and its policy, and the tests of the batch.
unfoldable pub apply_buffer : Conf → Config → Result Conf
apply_buffer c cfg = do
  guard (leb (first_size c cfg) buffer_max) err_invalid_arg
  guard (up_to cfg.overflow_policy 2) err_invalid_arg
  guard (within 1 65535 cfg.batch_size) err_invalid_arg
  guard (within 1 60000 cfg.flush_interval_ms) err_invalid_arg
  ok (record c { buffer_size = first_size c cfg; overflow_policy = number cfg.overflow_policy })

abbrev pub room_for_sinks : Config → Bool
room_for_sinks cfg =
    leb (length cfg.outputs + length cfg.sinks) max_outputs || (length cfg.sinks == 0)

-- A file output whose path and template for archive names are addresses in its own element of the array,
-- when `realloc` has moved the array and they are not set again.
abbrev pub moved_output : (ℕ → Bytes → Bytes) → ℕ → ConfOutput → ConfOutput
moved_output stale i o =
    if is_num o.desc.type 1
    then record o {
      desc = record o.desc {
        path = Option.map (stale i) o.desc.path;
        rotate_naming = Option.map (stale i) o.desc.rotate_naming;
      };
    }
    else o

abbrev pub moved_outputs : (ℕ → Bytes → Bytes) → ℕ → List ConfOutput → List ConfOutput
moved_outputs stale i [] = []
moved_outputs stale i (o ∷ os) = moved_output stale i o ∷ moved_outputs stale (i + 1) os

-- `stale` is what a text in the old array at an index reads as behind `realloc`: itself where the array
-- stays in its place, and else what the C library has made of the freed block.
unfoldable pub apply_sinks : (ℕ → Bytes → Bytes) → Conf → Config → Result Conf
apply_sinks stale c cfg = do
  guard (room_for_sinks cfg) err_invalid_arg
  sinks ← code_sinks cfg.sinks
  let outs = if length cfg.sinks == 0 then c.outputs else moved_outputs stale 0 c.outputs
  ok (record c { outputs = outs ++ sinks })

abbrev pub record_limit : Conf → Config → ℕ
record_limit c cfg = if cfg.max_log_length == 0 then c.max_log_length else cfg.max_log_length

abbrev pub advanced : Conf → Config → Conf
advanced c cfg =
    let need = max_record_size (record_limit c cfg) * 2 in
    record c {
      batch_size = cfg.batch_size;
      flush_interval_ms = cfg.flush_interval_ms;
      shutdown_timeout_ms = cfg.shutdown_timeout_ms;
      consumer_threads = cfg.consumer_threads;
      escape_injection = cfg.escape_injection;
      max_log_length = record_limit c cfg;
      truncation_marker = or_else cfg.truncation_marker c.truncation_marker;
      crash_safety = number cfg.crash_safety;
      signal_safe = cfg.signal_safe;
      buffer_size = if ltb c.buffer_size need then need else c.buffer_size;
    }

-- Consumers, lengths and crash safety; the buffer is raised again for the length.
unfoldable pub apply_advanced : Conf → Config → Result Conf
apply_advanced c cfg = do
  guard (within 1 max_consumers cfg.consumer_threads) err_invalid_arg
  guard ((cfg.max_log_length == 0) || within 256 65536 cfg.max_log_length) err_invalid_arg
  guard (shorter cfg.truncation_marker max_fmt_len) err_invalid_arg
  guard (up_to cfg.crash_safety 3) err_invalid_arg
  ok (advanced c cfg)

-- `hpu_conf_from_code`, where no configuration leaves the defaults.
unfoldable pub conf_from_code : (ℕ → Bytes → Bytes) → Conf → Option Config → Result Conf
conf_from_code stale c none = ok c
conf_from_code stale c (some cfg) = do
  c1 ← apply_routing c cfg
  c2 ← apply_buffer c1 cfg
  c3 ← apply_sinks stale c2 cfg
  apply_advanced c3 cfg
