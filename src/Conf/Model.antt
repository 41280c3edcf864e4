-- ===== src/Conf/Model.antt =====
-- src/conf/conf_model.h and the configuration structures of include/hpulogc.h. A pointer that may be
-- NULL is an option, and an array with its count a list; enumerations and flags are C integers.
use hpulogc.Prelude.{
  ℕ, ◌+◌, ◌*◌, Bool, true, false, List, [], ◌∷◌, Option, none, leb, ◌==◌, Bytes, codes, ℤ, pos,
  negsuc,
}

-- `HPULOGC_MAX_OUTPUTS`, `HPULOGC_MAX_RULES`, `HPULOGC_MAX_NAME_LEN`, `HPULOGC_MAX_PATH_LEN`,
-- `HPULOGC_MAX_FMT_LEN` and `HPU_MAX_CONSUMERS`
abbrev pub max_outputs : ℕ
max_outputs = 16

abbrev pub max_rules : ℕ
max_rules = 64

abbrev pub max_name_len : ℕ
max_name_len = 64

abbrev pub max_path_len : ℕ
max_path_len = 512

abbrev pub max_fmt_len : ℕ
max_fmt_len = 256

abbrev pub max_consumers : ℕ
max_consumers = 16

-- `HPU_CONF_MAX_SINK_KV`, `HPU_CONF_SINK_KV_POOL`, `CONF_BUFFER_MIN` and `CONF_BUFFER_MAX`
abbrev pub max_sink_kv : ℕ
max_sink_kv = 32

abbrev pub sink_kv_pool : ℕ
sink_kv_pool = 8192

abbrev pub buffer_min : ℕ
buffer_min = 4 * 1024

abbrev pub buffer_max : ℕ
buffer_max = 1024 * 1024 * 1024

-- The integer is this number, and it is one of 0 to this number.
abbrev pub is_num : ℤ → ℕ → Bool
is_num (pos n) k = n == k
is_num (negsuc n) k = false

abbrev pub up_to : ℤ → ℕ → Bool
up_to (pos n) k = leb n k
up_to (negsuc n) k = false

-- The number of an integer that is not negative.
abbrev pub number : ℤ → ℕ
number (pos n) = n
number (negsuc n) = 0

-- `hpulogc_output_t`
pub record Output : Type 0 where
  pub type : ℤ
  pub stream : ℤ
  pub color : ℤ
  pub path : Option Bytes
  pub rotate : ℤ
  pub max_size : ℕ
  pub time_unit : ℤ
  pub max_files : ℤ
  pub fsync : ℤ
  pub symlink_latest : ℤ
  pub rotate_naming : Option Bytes
  pub file_mode : ℕ
  pub dir_mode : ℕ

-- `hpulogc_rule_t`
pub record RuleDesc : Type 0 where
  pub category : Option Bytes
  pub min_level : ℤ
  pub max_level : ℤ
  pub format : Option Bytes
  pub outputs : List (Option Bytes)

-- `hpulogc_sink_decl_t`: the keys with their values.
pub record SinkDecl : Type 0 where
  pub name : Option Bytes
  pub type : Option Bytes
  pub pairs : List (Option Bytes × Option Bytes)

-- `hpulogc_config_t`
pub record Config : Type 0 where
  pub level : ℤ
  pub default_format : Option Bytes
  pub default_outputs : List (Option Bytes)
  pub outputs : List Output
  pub rules : List RuleDesc
  pub buffer_size : ℕ
  pub overflow_policy : ℤ
  pub batch_size : ℕ
  pub flush_interval_ms : ℕ
  pub shutdown_timeout_ms : ℕ
  pub escape_injection : ℤ
  pub max_log_length : ℕ
  pub truncation_marker : Option Bytes
  pub crash_safety : ℤ
  pub signal_safe : ℤ
  pub consumer_threads : ℕ
  pub sinks : List SinkDecl

-- `hpu_conf_output_t`. The key and value arrays with their pool are the list of the pairs in order
-- and the bytes used; an open backend is known by a number.
pub record ConfOutput : Type 0 where
  pub desc : Output
  pub name_buf : Bytes
  pub path_buf : Bytes
  pub naming_buf : Bytes
  pub handle : Option ℕ
  pub is_generic : Bool
  pub type_name : Bytes
  pub kvs : List (Bytes × Bytes)
  pub kv_pool_len : ℕ
  pub enabled : Bool
  pub async : Bool
  pub queue_size : ℕ

-- `hpu_conf_rule_t`; an output that is not resolved, -1 in the code, is `none`.
pub record ConfRule : Type 0 where
  pub category : Bytes
  pub min_level : ℕ
  pub max_level : ℕ
  pub negate_level : Bool
  pub format_name : Bytes
  pub output_idx : List (Option ℕ)

-- `hpu_conf_t` with `hpu_throttle_cfg_t`, without the sampling rate, which is a float, and the
-- renderer's environment. A format is its name and its template.
pub record Conf : Type 0 where
  pub level : ℕ
  pub default_format : Bytes
  pub default_output_names : List Bytes
  pub default_output_idx : List ℕ
  pub use_utc : Bool
  pub timestamp_source : ℕ
  pub time_format : Bytes
  pub newline_style : ℕ
  pub pid_fmt : ℕ
  pub tid_fmt : ℕ
  pub capture_source_loc : Bool
  pub strict_init : Bool
  pub hot_reload_interval : ℕ
  pub signal_reload : Bool
  pub formats : List (Bytes × Bytes)
  pub outputs : List ConfOutput
  pub rules : List ConfRule
  pub buffer_size : ℕ
  pub overflow_policy : ℕ
  pub batch_size : ℕ
  pub flush_interval_ms : ℕ
  pub shutdown_timeout_ms : ℕ
  pub consumer_threads : ℕ
  pub global_rate : ℕ
  pub per_category_rate : ℕ
  pub burst : ℕ
  pub sampling_n : ℕ
  pub escape_injection : ℤ
  pub max_log_length : ℕ
  pub truncation_marker : Bytes
  pub fork_behavior : ℕ
  pub signal_safe : ℤ
  pub crash_safety : ℕ
  pub stats_interval : ℕ
  pub stats_output_file : Bool
  pub stats_file : Bytes
  pub source_path : Bytes

-- `hpu_builtin_format_names` with `hpu_builtin_format_templates`
abbrev pub builtin_formats : List (Bytes × Bytes)
builtin_formats =
    (codes "minimal", codes "%level: %msg%n")
    ∷ (codes "standard", codes "%time [%level] %msg%n")
    ∷ (codes "categorized", codes "%time [%level] [%category] %msg%n")
    ∷ (
      codes "detailed",
      codes "%time [%level] [pid:%pid tid:%tid] [%file:%line %func] [%category] %msg%n",
    )
    ∷ (
      codes "json",
      codes
          "{\"time\":\"%time\",\"level\":\"%level\",\"category\":\"%category\",\"pid\":%pid,\"tid\":%tid,\"file\":\"%file\",\"line\":%line,\"msg\":\"%msg\"}%n",
    )
    ∷ []

-- `hpu_conf_defaults`
unfoldable pub conf_defaults : Conf
conf_defaults = record {
  level = 2;
  default_format = codes "standard";
  default_output_names = [];
  default_output_idx = [];
  use_utc = false;
  timestamp_source = 0;
  time_format = codes "%Y-%m-%d %H:%M:%S.%f";
  newline_style = 0;
  pid_fmt = 0;
  tid_fmt = 0;
  capture_source_loc = true;
  strict_init = true;
  hot_reload_interval = 5;
  signal_reload = false;
  formats = builtin_formats;
  outputs = [];
  rules = [];
  buffer_size = 1024 * 1024;
  overflow_policy = 0;
  batch_size = 64;
  flush_interval_ms = 100;
  shutdown_timeout_ms = 5000;
  consumer_threads = 1;
  global_rate = 0;
  per_category_rate = 0;
  burst = 100;
  sampling_n = 1;
  escape_injection = pos 1;
  max_log_length = 4096;
  truncation_marker = codes "...[TRUNCATED]";
  fork_behavior = 0;
  signal_safe = pos 0;
  crash_safety = 3;
  stats_interval = 0;
  stats_output_file = false;
  stats_file = [];
  source_path = [];
}

-- `hpulogc_config_default`
unfoldable pub config_default : Config
config_default = record {
  level = pos 2;
  default_format = none;
  default_outputs = [];
  outputs = [];
  rules = [];
  buffer_size = 1024 * 1024;
  overflow_policy = pos 0;
  batch_size = 64;
  flush_interval_ms = 100;
  shutdown_timeout_ms = 5000;
  escape_injection = pos 1;
  max_log_length = 4096;
  truncation_marker = none;
  crash_safety = pos 3;
  signal_safe = pos 0;
  consumer_threads = 1;
  sinks = [];
}

-- `max_record_size`
unfoldable pub max_record_size : ℕ → ℕ
max_record_size max_log_length = 8 * 4 + 4 * 4 + 2 * 4 + max_log_length + 256 + 512 + 256 + 8
