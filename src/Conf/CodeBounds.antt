-- ===== src/Conf/CodeBounds.antt =====
-- src/conf/conf_model.c: the bounds of a configuration that `hpu_conf_from_code` accepts.
use mathlib.Core.Path.{subst}
use hpulogc.Prelude.{ℕ, ◌≤◌, ◌≡◌, sym, ◌||◌, Option, none, some, ◌==◌, arith, length, Bytes}
use hpulogc.Conf.Result.{
  ok, err_invalid_arg, Ensures, ensured, Ensures-bind, Ensures-guard, Ensures-ok,
}
use hpulogc.Conf.Model.{
  max_outputs, max_fmt_len, max_consumers, Config, Conf, up_to, conf_defaults, max_record_size,
}
use hpulogc.Conf.Code.{shorter}
use hpulogc.Conf.FromCode.{within, record_limit, advanced, apply_advanced, conf_from_code}
use hpulogc.Conf.Accepted.{All, IsRule, IsAccepted}
use hpulogc.Conf.Applied.{
  up_to-number, Routed, Buffered, or_else-short, Starts, apply_routing-Routed,
  apply_buffer-Buffered, apply_sinks-Buffered,
}

apply_advanced-IsAccepted :
    (m : ℕ) (cfg : Config) (c : Conf)
    → m ≤ max_outputs
    → Routed m c
    → Buffered cfg c
    → Ensures IsAccepted (apply_advanced c cfg)
unfolding apply_advanced max_record_size
apply_advanced-IsAccepted m cfg c b r u =
    Ensures-guard (within 1 max_consumers cfg.consumer_threads) err_invalid_arg λ consumers.
      Ensures-guard ((cfg.max_log_length == 0) || within 256 65536 cfg.max_log_length)
        err_invalid_arg
        λ limit. Ensures-guard (shorter cfg.truncation_marker max_fmt_len) err_invalid_arg λ marker.
          Ensures-guard (up_to cfg.crash_safety 3) err_invalid_arg λ crash.
            let log : (256 ≤ record_limit c cfg) × (record_limit c cfg ≤ 65536) =
              ground (arith, limit, r.max_log) in
            ensured (advanced c cfg) (record {
              level = r.level;
              default_format = r.default_format;
              default_count = r.default_count;
              default_names = r.default_names;
              output_count = omega (arith, r.output_count);
              outputs = r.outputs;
              rule_count = r.rule_count;
              rules = subst (λ k. All (IsRule k) c.rules) (sym r.output_count) r.rules;
              room = ground arith;
              with_fields = ground arith;
              buffer = ground (arith, u.buffer, log);
              policy = u.policy;
              batch = u.batch;
              flush = u.flush;
              consumers = ground (arith, consumers);
              max_log = log;
              marker =
                  or_else-short cfg.truncation_marker c.truncation_marker max_fmt_len r.marker
                    marker;
              crash = up_to-number cfg.crash_safety 3 crash;
            })

conf_defaults-Starts : Starts conf_defaults
unfolding conf_defaults
conf_defaults-Starts = record {
  default_format = omega arith;
  max_log = omega arith;
  marker = omega arith;
}

conf_defaults-IsAccepted : IsAccepted conf_defaults
unfolding conf_defaults max_record_size
conf_defaults-IsAccepted = record {
  level = omega arith;
  default_format = omega arith;
  default_count = omega arith;
  default_names = tt;
  output_count = omega arith;
  outputs = tt;
  rule_count = omega arith;
  rules = tt;
  room = omega arith;
  with_fields = omega arith;
  buffer = omega arith;
  policy = omega arith;
  batch = omega arith;
  flush = omega arith;
  consumers = omega arith;
  max_log = omega arith;
  marker = omega arith;
  crash = omega arith;
}

some_config-IsAccepted :
    (stale : ℕ → Bytes → Bytes) (cfg : Config)
    → Ensures IsAccepted (conf_from_code stale conf_defaults (some cfg))
unfolding conf_from_code
some_config-IsAccepted stale cfg =
    Ensures-bind (apply_routing-Routed conf_defaults cfg conf_defaults-Starts) λ c1 r.
      Ensures-bind (apply_buffer-Buffered (length cfg.outputs) cfg c1 r.1) λ c2 u.
        Ensures-bind (apply_sinks-Buffered stale cfg c2 r.0 u.0 u.1)
          λ c3 s. apply_advanced-IsAccepted s.0 cfg c3 s.1 s.2 s.3

pub conf_from_code-IsAccepted :
    (stale : ℕ → Bytes → Bytes) (cfg : Option Config) (c : Conf)
    → conf_from_code stale conf_defaults cfg ≡ ok c
    → IsAccepted c
unfolding conf_from_code
conf_from_code-IsAccepted stale none c h =
    Ensures-ok {P = IsAccepted} (ensured conf_defaults conf_defaults-IsAccepted) h
conf_from_code-IsAccepted stale (some cfg) c h = Ensures-ok (some_config-IsAccepted stale cfg) h
