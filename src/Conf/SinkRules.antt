-- ===== src/Conf/SinkRules.antt =====
-- src/conf/conf_model.c: a rule of the code configuration that names a declared sink.
use hpulogc.Prelude.{
  ℕ, ◌+◌, ◌≡◌, ◌≢◌, refl, sym, ◌∙◌, inl, inr, ◌&&◌, ◌||◌, List, [], ◌∷◌, ◌++◌, Option, none, some,
  Bool-cases, Bytes, same, same_iff, leb, length,
}
use hpulogc.Conf.Result.{
  ok, err_config, err_invalid_arg, Ensures, ensured, failing, Ensures-bind, Ensures-or_fail,
  Ensures-guard, Ensures-ok, Ensures-any, Result-cases,
}
use hpulogc.Conf.Model.{
  Output, RuleDesc, Config, Conf, ConfOutput, conf_defaults, builtin_formats, is_num, max_outputs,
  max_name_len, max_path_len, max_fmt_len, max_rules, up_to,
}
use hpulogc.Conf.Code.{
  given, out_name, has_limit, shorter, flat_output, file_output, code_output, code_outputs,
  last_named, rule_outputs, code_rule, code_rules, is_builtin, level_range, default_names,
}
use hpulogc.Conf.FromCode.{apply_routing, conf_from_code}

-- No flat output of the configuration can have this name.
abbrev pub NotFlat : Bytes → Type 0
NotFlat name = (i : ℕ) → name ≢ out_name i

abbrev AllOther : Bytes → List ConfOutput → Type 0
AllOther name [] = Unit
AllOther name (o ∷ os) = (o.name_buf ≢ name) × AllOther name os

code_output_name :
    (o : Output) (i : ℕ) → Ensures (λ out. out.name_buf ≡ out_name i) (code_output o i)
unfolding code_output
code_output_name o i = elim (Bool-cases (is_num o.type 1)) [
  | inl e ↦ rw e (
      Ensures-guard (given o.path && shorter o.path max_path_len) err_config λ path.
        Ensures-guard (shorter o.rotate_naming max_fmt_len) err_config λ naming.
          Ensures-guard (has_limit o) err_config λ size.
            Ensures-guard (up_to o.time_unit 3) err_config λ unit. ensured (file_output o i) refl)
  | inr e ↦ elim (Bool-cases (is_num o.type 0)) [
    | inl c ↦
        rw (e, c)
          (Ensures-guard (is_num o.stream 0 || is_num o.stream 1) err_config
            λ stream. ensured (flat_output o i) refl)
    | inr c ↦ rw (e, c) (failing err_config)
  ]
]

code_outputs_other :
    (name : Bytes) (i : ℕ) (os : List Output)
    → NotFlat name
    → Ensures (AllOther name) (code_outputs i os)
unfolding code_outputs
code_outputs_other name i [] n = ensured [] tt
code_outputs_other name i (o ∷ os) n = Ensures-bind (code_output_name o i) λ out e.
    Ensures-bind (code_outputs_other name (i + 1) os n)
      λ outs h. ensured (out ∷ outs) ((λ q. n i (sym q ∙ e)), h)

last_named_other :
    (name : Bytes) (i : ℕ) (outs : List ConfOutput)
    → AllOther name outs
    → last_named i outs name ≡ none
unfolding last_named
last_named_other name i [] h = refl
last_named_other name i (o ∷ outs) h = elim (Bool-cases (same o.name_buf name)) [
  | inl e ↦ absurd (h.0 ((same_iff o.name_buf name).0 e))
  | inr e ↦ rw (last_named_other name (i + 1) outs h.1, e) refl
]

none-some : (k : ℕ) → none ≢ some k
none-some k = λ e. cc

-- What is never reached.
abbrev Never : {A : Type 0} → A → Type 0
Never a = ⊥

rule_outputs-Never :
    (name : Bytes) (outs : List ConfOutput) (before after : List (Option Bytes))
    → AllOther name outs
    → Ensures Never (rule_outputs outs (before ++ some name ∷ after))
unfolding rule_outputs
rule_outputs-Never name outs [] after h =
    Ensures-or_fail (last_named 0 outs name) err_config
      λ k found. absurd (none-some k (sym (last_named_other name 0 outs h) ∙ found))
rule_outputs-Never name outs (n ∷ before) after h = Ensures-or_fail n err_config λ s e.
    Ensures-or_fail (last_named 0 outs s) err_config
      λ k found. Ensures-bind (rule_outputs-Never name outs before after h) λ idx z. absurd z

-- A rule with this name among its outputs.
pub record Sends (name : Bytes) (r : RuleDesc) : Type 0 where
  pub before : List (Option Bytes)
  pub after : List (Option Bytes)
  pub among : r.outputs ≡ before ++ some name ∷ after

code_rule-Never :
    (name : Bytes) (outs : List ConfOutput) (r : RuleDesc)
    → AllOther name outs
    → Sends name r
    → Ensures Never (code_rule outs r)
unfolding code_rule
code_rule-Never name outs r h s = Ensures-guard (level_range r) err_config λ levels.
    Ensures-or_fail r.format err_config λ format e.
      Ensures-guard (is_builtin format builtin_formats) err_config λ builtin.
        Ensures-guard (shorter r.category max_name_len) err_config λ cat.
          Ensures-guard (leb (length r.outputs) max_outputs) err_config λ count.
            Ensures-bind {m = rule_outputs outs r.outputs}
              (rw s.among (rule_outputs-Never name outs s.before s.after h)) λ idx z. absurd z

code_rules-Never :
    (name : Bytes) (outs : List ConfOutput) (before : List RuleDesc) (r : RuleDesc)
    (after : List RuleDesc)
    → AllOther name outs
    → Sends name r
    → Ensures Never (code_rules outs (before ++ r ∷ after))
unfolding code_rules
code_rules-Never name outs [] r after h s =
    Ensures-bind (code_rule-Never name outs r h s) λ rule z. absurd z
code_rules-Never name outs (b ∷ before) r after h s = elim (Result-cases (code_rule outs b)) [
  | inl (rule, e) ↦
      rw e (Ensures-bind (code_rules-Never name outs before r after h s) λ rules z. absurd z)
  | inr (code, e) ↦ rw e (failing code)
]

apply_routing-Never :
    (name : Bytes) (c : Conf) (cfg : Config) (before : List RuleDesc) (r : RuleDesc)
    (after : List RuleDesc)
    → NotFlat name
    → cfg.rules ≡ before ++ r ∷ after
    → Sends name r
    → Ensures Never (apply_routing c cfg)
unfolding apply_routing
apply_routing-Never name c cfg before r after n e s =
    Ensures-guard (up_to cfg.level 6) err_invalid_arg λ level.
      Ensures-guard (shorter cfg.default_format max_name_len) err_invalid_arg λ format.
        Ensures-guard (leb (length cfg.default_outputs) max_outputs) err_invalid_arg λ count.
          Ensures-bind (Ensures-any (default_names cfg.default_outputs)) λ names any.
            Ensures-guard (leb (length cfg.outputs) max_outputs) err_invalid_arg λ out_count.
              Ensures-bind (code_outputs_other name 0 cfg.outputs n) λ outs other.
                Ensures-guard (leb (length cfg.rules) max_rules) err_invalid_arg λ rule_count.
                  Ensures-bind {m = code_rules outs cfg.rules}
                    (rw e (code_rules-Never name outs before r after other s)) λ rules z. absurd z

config-Never :
    (stale : ℕ → Bytes → Bytes) (name : Bytes) (cfg : Config) (before : List RuleDesc)
    (r : RuleDesc) (after : List RuleDesc)
    → NotFlat name
    → cfg.rules ≡ before ++ r ∷ after
    → Sends name r
    → Ensures Never (conf_from_code stale conf_defaults (some cfg))
unfolding conf_from_code
config-Never stale name cfg before r after n e s =
    Ensures-bind (apply_routing-Never name conf_defaults cfg before r after n e s) λ c z. absurd z

-- A configuration with a rule that sends to a name other than "out0", "out1" and so on is refused,
-- also where a sink of this name is declared.
pub sink_rule_refused :
    (stale : ℕ → Bytes → Bytes) (name : Bytes) (cfg : Config) (before : List RuleDesc)
    (r : RuleDesc) (after : List RuleDesc) (c : Conf)
    → NotFlat name
    → cfg.rules ≡ before ++ r ∷ after
    → Sends name r
    → conf_from_code stale conf_defaults (some cfg) ≢ ok c
sink_rule_refused stale name cfg before r after c n e s h =
    Ensures-ok {P = Never} (config-Never stale name cfg before r after n e s) h
