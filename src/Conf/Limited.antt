-- ===== src/Conf/Limited.antt =====
-- src/conf/conf_file.c: the limits of a loaded configuration.
use hpulogc.Prelude.{
  ℕ, ◌+◌, ◌≤◌, ◌<◌, ◌≡◌, List, [], ◌∷◌, ◌++◌, Option, none, some, leb, ◌==◌, arith, length,
  length-append, length-take, Bytes, ℤ, pos, negsuc,
}
use hpulogc.Conf.Result.{err_config, Ensures, ensured, failing, Ensures-if}
use hpulogc.Conf.Model.{
  max_outputs, max_rules, max_name_len, max_path_len, max_fmt_len, max_consumers, buffer_max,
  ConfOutput, ConfRule, Conf,
}
use hpulogc.Conf.Values.{index_of, strip_quotes, trim, clipped, clamp_long}
use hpulogc.Conf.Global.{add_default_names}
use hpulogc.Conf.Accepted.{All, All-append, IsName, IsOutput}

-- An output index, where it is resolved, is one of `n`.
abbrev pub ResolvedTo : ℕ → Option ℕ → Type 0
ResolvedTo n none = Unit
ResolvedTo n (some k) = k < n

pub record IsFileRule (n : ℕ) (r : ConfRule) : Type 0 where
  pub category : IsName r.category
  pub ordered : r.min_level ≤ r.max_level
  pub in_range : r.max_level ≤ 6
  pub format : IsName r.format_name
  pub outputs : length r.output_idx ≤ max_outputs
  pub resolved : All (ResolvedTo n) r.output_idx

pub record GlobalOk (level : ℕ) (format : Bytes) (names : List Bytes) : Type 0 where
  pub level_ok : level ≤ 6
  pub format_ok : IsName format
  pub count_ok : length names ≤ max_outputs
  pub names_ok : All IsName names

pub record RoutingOk (outputs : List ConfOutput) (rules : List ConfRule) : Type 0 where
  pub output_count : length outputs ≤ max_outputs
  pub outputs_ok : All IsOutput outputs
  pub rule_count : length rules ≤ max_rules
  pub rules_ok : All (IsFileRule (length outputs)) rules

pub record BufferOk (size policy : ℕ) : Type 0 where
  pub size_ok : (4096 ≤ size) × (size ≤ buffer_max)
  pub policy_ok : policy ≤ 2

pub record AsyncOk (batch flush consumers : ℕ) : Type 0 where
  pub batch_ok : (1 ≤ batch) × (batch ≤ 65535)
  pub flush_ok : (1 ≤ flush) × (flush ≤ 60000)
  pub consumers_ok : (1 ≤ consumers) × (consumers ≤ max_consumers)

pub record AdvancedOk (max_log : ℕ) (marker : Bytes) (crash : ℕ) (stats : Bytes) : Type 0 where
  pub max_log_ok : (256 ≤ max_log) × (max_log ≤ 65536)
  pub marker_ok : length marker < max_fmt_len
  pub crash_ok : crash ≤ 3
  pub stats_ok : length stats < max_path_len

-- A snapshot within the limits, with rules that may refer to no output.
abbrev pub IsLoaded : Conf → Type 0
IsLoaded c =
    GlobalOk c.level c.default_format c.default_output_names
    × RoutingOk c.outputs c.rules
    × BufferOk c.buffer_size c.overflow_policy
    × AsyncOk c.batch_size c.flush_interval_ms c.consumer_threads
    × AdvancedOk c.max_log_length c.truncation_marker c.crash_safety c.stats_file

-- More outputs behind those that there were.
targets_later :
    (n m : ℕ) (idx : List (Option ℕ)) → All (ResolvedTo n) idx → All (ResolvedTo (n + m)) idx
targets_later n m [] h = tt
targets_later n m (none ∷ idx) h = (tt, targets_later n m idx h.1)
targets_later n m (some k ∷ idx) h = (omega (arith, h.0), targets_later n m idx h.1)

pub files_later :
    (n m : ℕ) (rs : List ConfRule) → All (IsFileRule n) rs → All (IsFileRule (n + m)) rs
files_later n m [] h = tt
files_later n m (r ∷ rs) h = (
  record {
    category = h.0.category;
    ordered = h.0.ordered;
    in_range = h.0.in_range;
    format = h.0.format;
    outputs = h.0.outputs;
    resolved = targets_later n m r.output_idx h.0.resolved;
  },
  files_later n m rs h.1,
)

pub clamp_long_bounds :
    (v : ℤ) (lo hi : ℕ) → lo ≤ hi → (lo ≤ clamp_long v lo hi) × (clamp_long v lo hi ≤ hi)
unfolding clamp_long
clamp_long_bounds (pos v) lo hi h = ground arith
clamp_long_bounds (negsuc v) lo hi h = ground arith

pub index_of-lt :
    (i : ℕ) (names : List Bytes) (v : Bytes) (k : ℕ)
    → index_of i names v ≡ some k
    → k < i + length names
unfolding index_of
index_of-lt i [] v k h = cc
index_of-lt i (n ∷ names) v k h = ground (arith, index_of-lt (i + 1) names v k)

pub clipped-IsName : (s : Bytes) → IsName (clipped max_name_len s)
clipped-IsName s = omega (arith, length-take 63 s)

pub add_default_names-IsName :
    (names ps : List Bytes)
    → length names ≤ max_outputs
    → All IsName names
    → Ensures
        (λ names'. (length names' ≤ max_outputs) × All IsName names')
        (add_default_names names ps)
unfolding add_default_names
add_default_names-IsName names [] h a = ensured names (h, a)
add_default_names-IsName names (p ∷ ps) h a =
    let name : Bytes = strip_quotes (trim p) in
    let short : Bytes = clipped max_name_len name in
    Ensures-if (length name == 0) (λ e. add_default_names-IsName names ps h a)
      λ e.
        Ensures-if (leb max_outputs (length names)) (λ e'. failing err_config)
          λ e'.
            add_default_names-IsName (names ++ short ∷ []) ps
              (ground (arith, e', length-append names (short ∷ [])))
              (All-append IsName names (short ∷ []) a (clipped-IsName name, tt))
