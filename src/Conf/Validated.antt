-- ===== src/Conf/Validated.antt =====
-- src/conf/conf_model.c: the code and the result of the checks of `hpu_conf_finalize`.
use mathlib.Core.Path.{subst}
use hpulogc.Prelude.{
  ℕ, ◌≡◌, refl, Bool, true, false, Bool-cases, inl, inr, List, [], ◌∷◌, Option, none, some, Bytes,
  ℤ, not, ◌&&◌, ◌||◌, leb, length, same,
}
use hpulogc.Conf.Result.{
  Result, ok, err, ◌>>=◌, ◌>>◌, guard, or_fail, err_config, Ensures, ensured, failing,
  Ensures-guard, Ensures-ok,
}
use hpulogc.Conf.Model.{max_path_len, ConfOutput, ConfRule, Conf}
use hpulogc.Conf.Lines.{find_output, has_format}
use hpulogc.Conf.Paths.{path_normalize}
use hpulogc.Conf.Finalize.{
  Features, is_file, policy_allowed, naming_allowed, is_resolved, no_duplicate, check_dup_paths,
  check_naming, check_overflow_policy, check_consumer_threads, resolve_default_outputs,
  targets_resolved, resolve_rules, validated,
}

-- An error is HPULOGC_ERR_CONFIG.
data ConfigError {A : Type 0} : Result A → Type 0 where
  sound : (a : A) → ConfigError (ok a)
  refused : ConfigError (err err_config)

module _ {A B : Type 0} where
  ConfigError-bind :
      {m : Result A} {f : A → Result B}
      → ConfigError m
      → ((a : A) → ConfigError (f a))
      → ConfigError (m >>= f)
  ConfigError-bind (sound a) k = k a
  ConfigError-bind refused k = refused

  ConfigError-or_fail :
      (o : Option A) {f : A → Result B}
      → ((a : A) → ConfigError (f a))
      → ConfigError (or_fail o err_config >>= f)
  ConfigError-or_fail none k = refused
  ConfigError-or_fail (some a) k = k a

ConfigError-guard :
    {B : Type 0} (t : Bool) {rest : Result B}
    → ConfigError rest
    → ConfigError (guard t err_config >> rest)
ConfigError-guard true h = h
ConfigError-guard false h = refused

abbrev CodeIs : {A : Type 0} → ℤ → Result A → Type 0
CodeIs code (ok a) = Unit
CodeIs code (err e) = e ≡ code

ConfigError-code : {A : Type 0} {m : Result A} → ConfigError m → CodeIs err_config m
ConfigError-code (sound a) = tt
ConfigError-code refused = refl

no_duplicate-ConfigError : (na : Bytes) (os : List ConfOutput) → ConfigError (no_duplicate na os)
unfolding no_duplicate
no_duplicate-ConfigError na [] = sound tt
no_duplicate-ConfigError na (o ∷ os) =
    let rest = no_duplicate-ConfigError na os in
    elim (Bool-cases (is_file o)) [
      | inr e ↦ rw (no_duplicate, e) rest
      | inl e ↦
          rw (no_duplicate, e)
            (ConfigError-or_fail (path_normalize o.path_buf max_path_len)
              λ nb. ConfigError-guard (not (same na nb)) rest)
    ]

check_dup_paths-ConfigError : (os : List ConfOutput) → ConfigError (check_dup_paths os)
unfolding check_dup_paths
check_dup_paths-ConfigError [] = sound tt
check_dup_paths-ConfigError (o ∷ os) =
    let rest = check_dup_paths-ConfigError os in
    elim (Bool-cases (is_file o)) [
      | inr e ↦ rw (check_dup_paths, e) rest
      | inl e ↦
          rw (check_dup_paths, e)
            (ConfigError-or_fail (path_normalize o.path_buf max_path_len)
              λ na. ConfigError-bind (no_duplicate-ConfigError na os) λ t. rest)
    ]

check_naming-ConfigError : (os : List ConfOutput) → ConfigError (check_naming os)
unfolding check_naming
check_naming-ConfigError [] = sound tt
check_naming-ConfigError (o ∷ os) =
    ConfigError-guard (naming_allowed o.desc.rotate_naming) (check_naming-ConfigError os)

resolve_default_outputs-ConfigError :
    (outs : List ConfOutput) (names : List Bytes) → ConfigError (resolve_default_outputs outs names)
unfolding resolve_default_outputs
resolve_default_outputs-ConfigError outs [] = sound []
resolve_default_outputs-ConfigError outs (n ∷ names) =
    ConfigError-or_fail (find_output 0 outs n)
      λ i. ConfigError-bind (resolve_default_outputs-ConfigError outs names) λ is. sound (i ∷ is)

targets_resolved-ConfigError : (n : ℕ) (ks : List (Option ℕ)) → ConfigError (targets_resolved n ks)
unfolding targets_resolved
targets_resolved-ConfigError n [] = sound tt
targets_resolved-ConfigError n (k ∷ ks) =
    ConfigError-guard (is_resolved n k) (targets_resolved-ConfigError n ks)

resolve_rules-ConfigError : (c : Conf) (rs : List ConfRule) → ConfigError (resolve_rules c rs)
unfolding resolve_rules
resolve_rules-ConfigError c [] = sound tt
resolve_rules-ConfigError c (r ∷ rs) = ConfigError-guard (has_format c.formats r.format_name) (
    ConfigError-bind (targets_resolved-ConfigError (length c.outputs) r.output_idx)
      λ t. resolve_rules-ConfigError c rs)

validated-ConfigError : (f : Features) (c : Conf) → ConfigError (validated f c)
unfolding validated check_overflow_policy check_consumer_threads
validated-ConfigError f c = ConfigError-guard (has_format c.formats c.default_format) (
    ConfigError-guard (policy_allowed f c.overflow_policy) (
      ConfigError-guard (leb c.consumer_threads 1 || (f.async_build && f.mpmc)) (
        ConfigError-bind (check_dup_paths-ConfigError c.outputs) λ a.
          ConfigError-bind (check_naming-ConfigError c.outputs) λ b.
            ConfigError-bind (resolve_default_outputs-ConfigError c.outputs c.default_output_names)
              λ is.
                ConfigError-bind (resolve_rules-ConfigError c c.rules)
                  λ d. sound (record c { default_output_idx = is }))))

pub validated-code : (f : Features) (c : Conf) (e : ℤ) → validated f c ≡ err e → e ≡ err_config
validated-code f c e h = subst (CodeIs err_config) h (ConfigError-code (validated-ConfigError f c))

module _ {A B : Type 0} {Q : B → Type 0} where
  Ensures-through :
      (m : Result A) {f : A → Result B}
      → ((a : A) → m ≡ ok a → Ensures Q (f a))
      → Ensures Q (m >>= f)
  Ensures-through (ok a) k = k a refl
  Ensures-through (err e) k = failing e

-- What the opening and the plan of a reload use of the checks.
pub record IsChecked (c v : Conf) : Type 0 where
  pub outputs_kept : v.outputs ≡ c.outputs
  pub paths : check_dup_paths v.outputs ≡ ok tt
  pub rest_kept : v ≡ record c { default_output_idx = v.default_output_idx }
  pub resolved : resolve_default_outputs c.outputs c.default_output_names ≡ ok v.default_output_idx

validated-Ensures : (f : Features) (c : Conf) → Ensures (IsChecked c) (validated f c)
unfolding validated check_overflow_policy check_consumer_threads
validated-Ensures f c = Ensures-guard (has_format c.formats c.default_format) err_config λ g.
    Ensures-guard (policy_allowed f c.overflow_policy) err_config λ p.
      Ensures-guard (leb c.consumer_threads 1 || (f.async_build && f.mpmc)) err_config λ t.
        Ensures-through (check_dup_paths c.outputs) λ a d.
          Ensures-through (check_naming c.outputs) λ b n.
            Ensures-through (resolve_default_outputs c.outputs c.default_output_names) λ is r.
              Ensures-through (resolve_rules c c.rules) λ u x.
                ensured (record c { default_output_idx = is })
                  (record { outputs_kept = refl; paths = d; rest_kept = refl; resolved = r })

pub validated-IsChecked : (f : Features) (c v : Conf) → validated f c ≡ ok v → IsChecked c v
validated-IsChecked f c v h = Ensures-ok {P = IsChecked c} (validated-Ensures f c) h
