-- ===== src/Conf/Finalize.antt =====
-- src/conf/conf_model.c: what `hpu_conf_finalize` and `hpu_conf_finalize_reload` check and resolve.
use hpulogc.Prelude.{
  ℕ, ◌==◌, Bool, true, false, not, ◌&&◌, ◌||◌, if◌then◌else◌, List, [], ◌∷◌, Option, none, some,
  Bytes, codes, leb, ltb, length, same, starts_with,
}
use hpulogc.Conf.Result.{Result, ok, ◌>>=◌, ◌>>◌, guard, or_fail, err_config}
use hpulogc.Conf.Model.{max_path_len, is_num, ConfOutput, ConfRule, Conf}
use hpulogc.Conf.Lines.{find_output, has_format}
use hpulogc.Conf.Paths.{path_normalize}

-- The build: HPULOGC_ENABLE_ASYNC, HPULOGC_LOCKFREE, HPULOGC_CONCURRENCY_MSPC and _MPMC.
pub record Features : Type 0 where
  pub async_build : Bool
  pub lockfree : Bool
  pub mspc : Bool
  pub mpmc : Bool

abbrev pub policy_allowed : Features → ℕ → Bool
policy_allowed f policy =
    if f.async_build && f.lockfree
    then not (policy == 2) && not ((f.mspc || f.mpmc) && (policy == 1))
    else true

unfoldable pub check_overflow_policy : Features → Conf → Result (Unit {0})
check_overflow_policy f c = guard (policy_allowed f c.overflow_policy) err_config

unfoldable pub check_consumer_threads : Features → Conf → Result (Unit {0})
check_consumer_threads f c =
    guard (leb c.consumer_threads 1 || (f.async_build && f.mpmc)) err_config

abbrev pub is_file : ConfOutput → Bool
is_file o = is_num o.desc.type 1

-- The inner loop: no later file output has the path `na` in normal form.
unfoldable pub no_duplicate : Bytes → List ConfOutput → Result (Unit {0})
no_duplicate na [] = ok tt
no_duplicate na (o ∷ os) =
    let rest = no_duplicate na os in
    if is_file o
    then (do
      nb ← or_fail (path_normalize o.path_buf max_path_len) err_config
      guard (not (same na nb)) err_config
      rest)
    else rest

unfoldable pub check_dup_paths : List ConfOutput → Result (Unit {0})
check_dup_paths [] = ok tt
check_dup_paths (o ∷ os) =
    let rest = check_dup_paths os in
    if is_file o
    then (do
      na ← or_fail (path_normalize o.path_buf max_path_len) err_config
      no_duplicate na os
      rest)
    else rest

-- `strstr`: whether the second text contains the first.
abbrev pub contains : Bytes → Bytes → Bool
contains p [] = starts_with p []
contains p (c ∷ s) = starts_with p (c ∷ s) || contains p s

abbrev pub naming_allowed : Option Bytes → Bool
naming_allowed none = true
naming_allowed (some s) = contains (codes "{index}") s || contains (codes "{timestamp}") s

unfoldable pub check_naming : List ConfOutput → Result (Unit {0})
check_naming [] = ok tt
check_naming (o ∷ os) = guard (naming_allowed o.desc.rotate_naming) err_config >> check_naming os

-- The resolved indices of the default outputs.
unfoldable pub resolve_default_outputs : List ConfOutput → List Bytes → Result (List ℕ)
resolve_default_outputs outs [] = ok []
resolve_default_outputs outs (name ∷ names) = do
  i ← or_fail (find_output 0 outs name) err_config
  is ← resolve_default_outputs outs names
  ok (i ∷ is)

abbrev pub is_resolved : ℕ → Option ℕ → Bool
is_resolved n none = false
is_resolved n (some k) = ltb k n

unfoldable pub targets_resolved : ℕ → List (Option ℕ) → Result (Unit {0})
targets_resolved n [] = ok tt
targets_resolved n (k ∷ ks) = guard (is_resolved n k) err_config >> targets_resolved n ks

unfoldable pub resolve_rules : Conf → List ConfRule → Result (Unit {0})
resolve_rules c [] = ok tt
resolve_rules c (r ∷ rs) = do
  guard (has_format c.formats r.format_name) err_config
  targets_resolved (length c.outputs) r.output_idx
  resolve_rules c rs

-- The checks that both share, in their order, and the snapshot with its default outputs resolved.
unfoldable pub validated : Features → Conf → Result Conf
validated f c = do
  guard (has_format c.formats c.default_format) err_config
  check_overflow_policy f c
  check_consumer_threads f c
  check_dup_paths c.outputs
  check_naming c.outputs
  is ← resolve_default_outputs c.outputs c.default_output_names
  resolve_rules c c.rules
  ok (record c { default_output_idx = is })
