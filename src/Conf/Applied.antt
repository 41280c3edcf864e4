-- ===== src/Conf/Applied.antt =====
-- src/conf/conf_model.c: what the steps of `hpu_conf_from_code` before the last one keep.
use mathlib.Core.Path.{subst}
use hpulogc.Prelude.{
  ℕ, suc, refl, ap, Bool, false, Bool-cases, inl, inr, if◌then◌else◌, ◌==◌, ◌+◌, ◌++◌, [], ◌∷◌, ◌≤◌,
  ◌<◌, ◌≡◌, true, List, Option, none, some, leb, arith, length, length-append, Bytes, ℤ, pos,
  negsuc, leb→le,
}
use hpulogc.Conf.Result.{err_invalid_arg, Ensures, ensured, Ensures-bind, Ensures-guard}
use hpulogc.Conf.Model.{
  max_outputs, max_rules, max_name_len, max_fmt_len, buffer_max, Config, Conf, ConfOutput, ConfRule,
  is_num, up_to, number,
}
use hpulogc.Conf.Code.{shorter, raised}
use hpulogc.Conf.FromCode.{
  or_else, routed, within, first_size, room_for_sinks, moved_output, moved_outputs, apply_routing,
  apply_buffer, apply_sinks,
}
use hpulogc.Conf.Accepted.{
  All, All-append, IsName, IsOutput, Resolved, IsRule, default_names-IsName, code_outputs-IsOutput,
  code_rules-IsRule,
}
use hpulogc.Conf.SinkBounds.{code_sinks-IsOutput}

pub up_to-number : (i : ℤ) (k : ℕ) → up_to i k ≡ true → number i ≤ k
up_to-number (pos n) k h = ground arith
up_to-number (negsuc n) k h = cc

raised_min : (size max_log : ℕ) → 4096 ≤ raised size max_log
unfolding raised
raised_min size max_log = ground arith

-- More outputs behind those that there were.
Resolved-later :
    (n m : ℕ) (idx : List (Option ℕ)) → All (Resolved n) idx → All (Resolved (n + m)) idx
Resolved-later n m [] h = tt
Resolved-later n m (none ∷ idx) h = absurd h.0
Resolved-later n m (some k ∷ idx) h = (omega (arith, h.0), Resolved-later n m idx h.1)

rules_later : (n m : ℕ) (rs : List ConfRule) → All (IsRule n) rs → All (IsRule (n + m)) rs
rules_later n m [] h = tt
rules_later n m (r ∷ rs) h = (
  record {
    category = h.0.category;
    ordered = h.0.ordered;
    in_range = h.0.in_range;
    outputs = h.0.outputs;
    resolved = Resolved-later n m r.output_idx h.0.resolved;
  },
  rules_later n m rs h.1,
)

-- After the routing part, with `n` outputs.
pub record Routed (n : ℕ) (c : Conf) : Type 0 where
  pub level : c.level ≤ 6
  pub default_format : IsName c.default_format
  pub default_count : length c.default_output_names ≤ max_outputs
  pub default_names : All IsName c.default_output_names
  pub output_count : length c.outputs ≡ n
  pub outputs : All IsOutput c.outputs
  pub rule_count : length c.rules ≤ max_rules
  pub rules : All (IsRule n) c.rules
  pub max_log : (256 ≤ c.max_log_length) × (c.max_log_length ≤ 65536)
  pub marker : length c.truncation_marker < max_fmt_len

-- After the part of the buffer.
pub record Buffered (cfg : Config) (c : Conf) : Type 0 where
  pub buffer : (4096 ≤ c.buffer_size) × (c.buffer_size ≤ buffer_max)
  pub policy : c.overflow_policy ≤ 2
  pub batch : (1 ≤ cfg.batch_size) × (cfg.batch_size ≤ 65535)
  pub flush : (1 ≤ cfg.flush_interval_ms) × (cfg.flush_interval_ms ≤ 60000)

pub or_else-short :
    (o : Option Bytes) (d : Bytes) (n : ℕ)
    → length d < n
    → shorter o n ≡ true
    → length (or_else o d) < n
or_else-short none d n p h = p
or_else-short (some s) d n p h = ground arith

-- What the parts take over from the snapshot that they start from.
pub record Starts (c : Conf) : Type 0 where
  pub default_format : IsName c.default_format
  pub max_log : (256 ≤ c.max_log_length) × (c.max_log_length ≤ 65536)
  pub marker : length c.truncation_marker < max_fmt_len

pub apply_routing-Routed :
    (c : Conf) (cfg : Config)
    → Starts c
    → Ensures
        (λ c'. (length cfg.outputs ≤ max_outputs) × Routed (length cfg.outputs) c')
        (apply_routing c cfg)
unfolding apply_routing
apply_routing-Routed c cfg s = Ensures-guard (up_to cfg.level 6) err_invalid_arg λ level.
    Ensures-guard (shorter cfg.default_format max_name_len) err_invalid_arg λ format.
      Ensures-guard (leb (length cfg.default_outputs) max_outputs) err_invalid_arg λ count.
        Ensures-bind (default_names-IsName cfg.default_outputs) λ names n.
          Ensures-guard (leb (length cfg.outputs) max_outputs) err_invalid_arg λ out_count.
            Ensures-bind (code_outputs-IsOutput 0 cfg.outputs) λ outs o.
              Ensures-guard (leb (length cfg.rules) max_rules) err_invalid_arg λ rule_count.
                Ensures-bind (code_rules-IsRule outs cfg.rules) λ rules r.
                  ensured (routed c cfg names outs rules) (
                    ground arith,
                    record {
                      level = up_to-number cfg.level 6 level;
                      default_format =
                          or_else-short cfg.default_format c.default_format max_name_len
                            s.default_format format;
                      default_count = ground (arith, n.0);
                      default_names = n.1;
                      output_count = o.0;
                      outputs = o.1;
                      rule_count = ground (arith, r.0);
                      rules = subst (λ k. All (IsRule k) rules) o.0 r.1;
                      max_log = s.max_log;
                      marker = s.marker;
                    },
                  )

pub apply_buffer-Buffered :
    (n : ℕ) (cfg : Config) (c : Conf)
    → Routed n c
    → Ensures (λ c'. Routed n c' × Buffered cfg c') (apply_buffer c cfg)
unfolding apply_buffer raised
apply_buffer-Buffered n cfg c h =
    Ensures-guard (leb (first_size c cfg) buffer_max) err_invalid_arg λ size.
      Ensures-guard (up_to cfg.overflow_policy 2) err_invalid_arg λ policy.
        Ensures-guard (within 1 65535 cfg.batch_size) err_invalid_arg λ batch.
          Ensures-guard (within 1 60000 cfg.flush_interval_ms) err_invalid_arg λ flush.
            ensured
              (record c {
                buffer_size = first_size c cfg;
                overflow_policy = number cfg.overflow_policy;
              })
              (
                record {
                  level = h.level;
                  default_format = h.default_format;
                  default_count = h.default_count;
                  default_names = h.default_names;
                  output_count = h.output_count;
                  outputs = h.outputs;
                  rule_count = h.rule_count;
                  rules = h.rules;
                  max_log = h.max_log;
                  marker = h.marker;
                },
                record {
                  buffer = (raised_min _ c.max_log_length, leb→le _ _ size);
                  policy = up_to-number cfg.overflow_policy 2 policy;
                  batch = ground (arith, batch);
                  flush = ground (arith, flush);
                },
              )

moved_output-IsOutput :
    (stale : ℕ → Bytes → Bytes) (i : ℕ) (o : ConfOutput)
    → IsOutput o
    → IsOutput (moved_output stale i o)
moved_output-IsOutput stale i o h = elim (Bool-cases (is_num o.desc.type 1)) [
  | inl file ↦ rw file (record {
    name = h.name;
    type_fits = h.type_fits;
    path = h.path;
    naming = h.naming;
    pairs = h.pairs;
    pool = h.pool;
    pool_fits = h.pool_fits;
  })
  | inr other ↦ rw other h
]

moved_outputs-IsOutput :
    (stale : ℕ → Bytes → Bytes) (i : ℕ) (os : List ConfOutput)
    → All IsOutput os
    → All IsOutput (moved_outputs stale i os) × (length (moved_outputs stale i os) ≡ length os)
moved_outputs-IsOutput stale i [] h = (tt, refl)
moved_outputs-IsOutput stale i (o ∷ os) h =
    let (a, n) = moved_outputs-IsOutput stale (i + 1) os h.1 in
    ((moved_output-IsOutput stale i o h.0, a), ap suc n)

-- The outputs before the sinks.
sinks_behind :
    (stale : ℕ → Bytes → Bytes) (none_there : Bool) (os : List ConfOutput)
    → All IsOutput os
    → let outs = if none_there then os else moved_outputs stale 0 os in
      All IsOutput outs × (length outs ≡ length os)
sinks_behind stale true os h = (h, refl)
sinks_behind stale false os h = moved_outputs-IsOutput stale 0 os h

pub apply_sinks-Buffered :
    (stale : ℕ → Bytes → Bytes) (cfg : Config) (c : Conf)
    → length cfg.outputs ≤ max_outputs
    → Routed (length cfg.outputs) c
    → Buffered cfg c
    → Ensures
        (λ c'. (m : ℕ) × (m ≤ max_outputs) × Routed m c' × Buffered cfg c')
        (apply_sinks stale c cfg)
unfolding apply_sinks
apply_sinks-Buffered stale cfg c b h u = Ensures-guard (room_for_sinks cfg) err_invalid_arg λ count.
    Ensures-bind (code_sinks-IsOutput cfg.sinks) λ sinks s.
      let outs = if length cfg.sinks == 0 then c.outputs else moved_outputs stale 0 c.outputs in
      let (kept, n) = sinks_behind stale (length cfg.sinks == 0) c.outputs h.outputs in
      ensured (record c { outputs = outs ++ sinks })
        (
          length cfg.outputs + length cfg.sinks,
          ground (arith, count),
          record {
            level = h.level;
            default_format = h.default_format;
            default_count = h.default_count;
            default_names = h.default_names;
            output_count = omega (arith, length-append outs sinks, n, h.output_count, s.0);
            outputs = All-append IsOutput outs sinks kept s.1;
            rule_count = h.rule_count;
            rules = rules_later (length cfg.outputs) (length cfg.sinks) c.rules h.rules;
            max_log = h.max_log;
            marker = h.marker;
          },
          record { buffer = u.buffer; policy = u.policy; batch = u.batch; flush = u.flush },
        )
