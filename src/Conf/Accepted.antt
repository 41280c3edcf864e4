-- ===== src/Conf/Accepted.antt =====
-- src/conf/conf_model.c: what holds of every configuration that `hpu_conf_from_code` accepts.
use hpulogc.Prelude.{
  ℕ, suc, ◌+◌, ◌*◌, ◌≤◌, ◌<◌, ◌≡◌, refl, ap, inl, inr, true, ◌&&◌, List, [], ◌∷◌, ◌++◌, Option,
  none, some, leb, ltb, arith, Bool-cases, Option-cases, length, Bytes,
}
use hpulogc.Conf.Result.{
  err_invalid_arg, err_config, Ensures, ensured, failing, Ensures-bind, Ensures-or_fail,
  Ensures-guard,
}
use hpulogc.Conf.Model.{
  max_outputs, max_rules, max_name_len, max_path_len, max_fmt_len, max_consumers, max_sink_kv,
  sink_kv_pool, buffer_max, Output, RuleDesc, ConfOutput, ConfRule, Conf, max_record_size, is_num,
}
use hpulogc.Conf.Declared.{named}
use hpulogc.Conf.Code.{
  has_limit, shorter, given, level_range, bytes_of, out_name, flat_output, file_output,
  rule_category, made_rule, default_names, code_output, code_outputs, last_named, rule_outputs,
  code_rule, code_rules,
}

abbrev pub All : {A : Type 0} → (A → Type 0) → List A → Type 0
All P [] = Unit
All P (x ∷ xs) = P x × All P xs

pub All-append :
    {A : Type 0} (P : A → Type 0) (xs ys : List A) → All P xs → All P ys → All P (xs ++ ys)
All-append P [] ys a b = b
All-append P (x ∷ xs) ys a b = (a.0, All-append P xs ys a.1 b)

abbrev pub IsName : Bytes → Type 0
IsName s = length s < max_name_len

-- The bytes that the pairs take in the pool, each with its NUL.
abbrev pub pool_bytes : List (Bytes × Bytes) → ℕ
pool_bytes [] = 0
pool_bytes ((k, v) ∷ kvs) = length k + length v + 2 + pool_bytes kvs

-- Every text fits its array, and the pairs are the bytes of the pool.
pub record IsOutput (o : ConfOutput) : Type 0 where
  pub name : IsName o.name_buf
  pub type_fits : IsName o.type_name
  pub path : length o.path_buf < max_path_len
  pub naming : length o.naming_buf < max_fmt_len
  pub pairs : length o.kvs ≤ max_sink_kv
  pub pool : o.kv_pool_len ≡ pool_bytes o.kvs
  pub pool_fits : o.kv_pool_len ≤ sink_kv_pool

-- An index of one of `n` outputs.
abbrev pub Resolved : ℕ → Option ℕ → Type 0
Resolved n none = ⊥
Resolved n (some k) = k < n

pub record IsRule (n : ℕ) (r : ConfRule) : Type 0 where
  pub category : IsName r.category
  pub ordered : r.min_level ≤ r.max_level
  pub in_range : r.max_level ≤ 6
  pub outputs : length r.output_idx ≤ max_outputs
  pub resolved : All (Resolved n) r.output_idx

pub record IsAccepted (c : Conf) : Type 0 where
  pub level : c.level ≤ 6
  pub default_format : IsName c.default_format
  pub default_count : length c.default_output_names ≤ max_outputs
  pub default_names : All IsName c.default_output_names
  pub output_count : length c.outputs ≤ max_outputs
  pub outputs : All IsOutput c.outputs
  pub rule_count : length c.rules ≤ max_rules
  pub rules : All (IsRule (length c.outputs)) c.rules
  pub room : 2 * max_record_size c.max_log_length ≤ c.buffer_size
  pub with_fields : max_record_size c.max_log_length + (c.max_log_length + 8) ≤ c.buffer_size
  pub buffer : (4096 ≤ c.buffer_size) × (c.buffer_size ≤ buffer_max)
  pub policy : c.overflow_policy ≤ 2
  pub batch : (1 ≤ c.batch_size) × (c.batch_size ≤ 65535)
  pub flush : (1 ≤ c.flush_interval_ms) × (c.flush_interval_ms ≤ 60000)
  pub consumers : (1 ≤ c.consumer_threads) × (c.consumer_threads ≤ max_consumers)
  pub max_log : (256 ≤ c.max_log_length) × (c.max_log_length ≤ 65536)
  pub marker : length c.truncation_marker < max_fmt_len
  pub crash : c.crash_safety ≤ 3

pub named-IsName : (o : Option Bytes) (s : Bytes) → named o ≡ some s → IsName s
named-IsName none s h = cc
named-IsName (some []) s h = cc
named-IsName (some (c ∷ t)) s h = ground arith

pub default_names-IsName :
    (ns : List (Option Bytes))
    → Ensures (λ names. (length names ≡ length ns) × All IsName names) (default_names ns)
unfolding default_names
default_names-IsName [] = ensured [] (refl, tt)
default_names-IsName (n ∷ ns) = Ensures-or_fail (named n) err_invalid_arg λ s e.
    Ensures-bind (default_names-IsName ns)
      λ names h. ensured (s ∷ names) (ap suc h.0, (named-IsName n s e, h.1))

out_name-IsName : (i : ℕ) → IsName (out_name i)
out_name-IsName i = elim (Bool-cases (ltb i 10)) [
  | inl e ↦ rw e (omega arith)
  | inr e ↦ rw e (omega arith)
]

shorter-bytes_of : (o : Option Bytes) (n : ℕ) → 0 < n → shorter o n ≡ true → length (bytes_of o) < n
shorter-bytes_of none n p h = p
shorter-bytes_of (some s) n p h = ground arith

file_output-IsOutput :
    (o : Output) (i : ℕ)
    → (given o.path && shorter o.path max_path_len) ≡ true
    → shorter o.rotate_naming max_fmt_len ≡ true
    → IsOutput (file_output o i)
file_output-IsOutput o i p n = record {
  name = out_name-IsName i;
  type_fits = omega arith;
  path = shorter-bytes_of o.path max_path_len (omega arith) (ground arith);
  naming = shorter-bytes_of o.rotate_naming max_fmt_len (omega arith) n;
  pairs = omega arith;
  pool = refl;
  pool_fits = omega arith;
}

flat_output-IsOutput : (o : Output) (i : ℕ) → IsOutput (flat_output o i)
flat_output-IsOutput o i = record {
  name = out_name-IsName i;
  type_fits = omega arith;
  path = omega arith;
  naming = omega arith;
  pairs = omega arith;
  pool = refl;
  pool_fits = omega arith;
}

code_output-IsOutput : (o : Output) (i : ℕ) → Ensures IsOutput (code_output o i)
unfolding code_output
code_output-IsOutput o i = elim (Bool-cases (is_num o.type 1)) [
  | inl e ↦ rw e (
      Ensures-guard _ err_config λ path. Ensures-guard _ err_config λ naming.
        Ensures-guard (has_limit o) err_config λ size.
          Ensures-guard _ err_config
            λ unit. ensured (file_output o i) (file_output-IsOutput o i path naming))
  | inr e ↦ elim (Bool-cases (is_num o.type 0)) [
    | inl c ↦
        rw (e, c)
          (Ensures-guard _ err_config
            λ stream. ensured (flat_output o i) (flat_output-IsOutput o i))
    | inr c ↦ rw (e, c) (failing err_config)
  ]
]

pub code_outputs-IsOutput :
    (i : ℕ) (os : List Output)
    → Ensures (λ outs. (length outs ≡ length os) × All IsOutput outs) (code_outputs i os)
unfolding code_outputs
code_outputs-IsOutput i [] = ensured [] (refl, tt)
code_outputs-IsOutput i (o ∷ os) = Ensures-bind (code_output-IsOutput o i) λ out p.
    Ensures-bind (code_outputs-IsOutput (i + 1) os)
      λ outs h. ensured (out ∷ outs) (ap suc h.0, (p, h.1))

last_named-lt :
    (i : ℕ) (outs : List ConfOutput) (name : Bytes) (k : ℕ)
    → last_named i outs name ≡ some k
    → k < i + length outs
unfolding last_named
last_named-lt i [] name k h = cc
last_named-lt i (o ∷ outs) name k h = elim (Option-cases (last_named (i + 1) outs name)) [
  | inl e ↦ let h' = rw e at h in ground arith
  | inr (j, e) ↦ let h' = rw e at h in ground (arith, last_named-lt (i + 1) outs name j e)
]

rule_outputs-Resolved :
    (outs : List ConfOutput) (ns : List (Option Bytes))
    → Ensures
        (λ idx. (length idx ≡ length ns) × All (Resolved (length outs)) idx)
        (rule_outputs outs ns)
unfolding rule_outputs
rule_outputs-Resolved outs [] = ensured [] (refl, tt)
rule_outputs-Resolved outs (n ∷ ns) = Ensures-or_fail n err_config λ name e.
    Ensures-or_fail (last_named 0 outs name) err_config λ k found.
      Ensures-bind (rule_outputs-Resolved outs ns) λ idx h.
        let bound : k < length outs = omega (arith, last_named-lt 0 outs name k found) in
        ensured (some k ∷ idx) (ap suc h.0, (bound, h.1))

rule_category-IsName : (o : Option Bytes) → shorter o max_name_len ≡ true → IsName (rule_category o)
rule_category-IsName none h = omega arith
rule_category-IsName (some []) h = omega arith
rule_category-IsName (some (c ∷ s)) h = ground arith

made_rule-IsRule :
    (n : ℕ) (r : RuleDesc) (format : Bytes) (idx : List (Option ℕ))
    → level_range r ≡ true
    → shorter r.category max_name_len ≡ true
    → leb (length r.outputs) max_outputs ≡ true
    → (length idx ≡ length r.outputs) × All (Resolved n) idx
    → IsRule n (made_rule r format idx)
made_rule-IsRule n r format idx levels cat count h = record {
  category = rule_category-IsName r.category cat;
  ordered = ground (arith, levels);
  in_range = ground (arith, levels);
  outputs = ground (arith, count, h.0);
  resolved = h.1;
}

code_rule-IsRule :
    (outs : List ConfOutput) (r : RuleDesc) → Ensures (IsRule (length outs)) (code_rule outs r)
unfolding code_rule
code_rule-IsRule outs r = Ensures-guard _ err_config λ levels.
    Ensures-or_fail r.format err_config λ format e. Ensures-guard _ err_config λ builtin.
      Ensures-guard _ err_config λ cat. Ensures-guard _ err_config λ count.
        Ensures-bind (rule_outputs-Resolved outs r.outputs) λ idx h.
          ensured (made_rule r format idx)
            (made_rule-IsRule (length outs) r format idx levels cat count h)

pub code_rules-IsRule :
    (outs : List ConfOutput) (rs : List RuleDesc)
    → Ensures
        (λ rules. (length rules ≡ length rs) × All (IsRule (length outs)) rules)
        (code_rules outs rs)
unfolding code_rules
code_rules-IsRule outs [] = ensured [] (refl, tt)
code_rules-IsRule outs (r ∷ rs) = Ensures-bind (code_rule-IsRule outs r) λ rule p.
    Ensures-bind (code_rules-IsRule outs rs)
      λ rules h. ensured (rule ∷ rules) (ap suc h.0, (p, h.1))
