-- ===== src/Conf/RuleLine.antt =====
-- src/conf/conf_file.c: one line of [rules] or of [build].
use hpulogc.Prelude.{
  ℕ, ◌+◌, Bool, true, false, ◌&&◌, ◌||◌, List, [], ◌∷◌, ◌++◌, Option, none, some, if◌then◌else◌,
  leb, ltb, ◌==◌, length, Bytes, codes, same,
}
use hpulogc.Conf.Result.{Result, ok, err, ◌>>=◌, ◌>>◌, guard, or_fail, err_config}
use hpulogc.Conf.Model.{max_outputs, max_rules, max_name_len, ConfOutput, ConfRule, Conf}
use hpulogc.Conf.Values.{parse_bool, parse_level, strip_quotes, split_csv, trim, clipped}
use hpulogc.Conf.Lines.{find_output, split_at, split_last}

-- The levels of a rule: its bounds, and whether it is negated.
pub record Levels : Type 0 where
  pub min_level : ℕ
  pub max_level : ℕ
  pub negate : Bool

-- A level, or two with a tilde (126) between them.
unfoldable pub level_span : Bool → Bytes → Option Levels
level_span negate body = elim (split_at 126 body) [
  | none ↦ elim (parse_level body) [
    | none ↦ none
    | some l ↦ some (record { min_level = l; max_level = l; negate = negate })
  ]
  | some (lo, hi) ↦ if leb max_name_len (length lo) then none else elim (parse_level lo) [
    | none ↦ none
    | some a ↦ elim (parse_level hi) [
      | none ↦ none
      | some b ↦ some (record { min_level = a; max_level = b; negate = negate })
    ]
  ]
]

abbrev pub has_byte : ℕ → Bytes → Bool
has_byte b s = elim (split_at b s) [ none ↦ false | some p ↦ true ]

-- Behind the exclamation mark: one level alone.
unfoldable pub negated_level : Bytes → Option Levels
negated_level [] = none
negated_level (c ∷ s) = if c == b'*' || has_byte 126 (c ∷ s) then none else level_span true (c ∷ s)

unfoldable pub parse_rule_levels : Bytes → Option Levels
parse_rule_levels [] = level_span false []
parse_rule_levels (c ∷ s) =
    if c == b'!'
    then negated_level s
    else if same (c ∷ s) (codes "*")
    then some (record { min_level = 0; max_level = 5; negate = false })
    else level_span false (c ∷ s)

-- The outputs of a rule, behind `idx`; an empty name is passed over.
unfoldable pub rule_targets :
    List ConfOutput → List (Option ℕ) → List Bytes → Result (List (Option ℕ))
rule_targets outs idx [] = ok idx
rule_targets outs idx (p ∷ ps) =
    let name = strip_quotes (trim p) in
    let skipped = rule_targets outs idx ps in
    let added = rule_targets outs (idx ++ find_output 0 outs name ∷ []) ps in
    if length name == 0
    then skipped
    else (if leb max_outputs (length idx) then err err_config else added)

-- The format and the outputs of a rule.
unfoldable pub rule_value : List ConfOutput → List Bytes → Result (Bytes × List (Option ℕ))
rule_value outs [] = err err_config
rule_value outs (f ∷ parts) = do
  let format = strip_quotes (trim f)
  guard (ltb (length format) max_name_len) err_config
  idx ← rule_targets outs [] parts
  ok (format, idx)

abbrev pub file_rule : Bytes → Levels → Bytes → List (Option ℕ) → ConfRule
file_rule sel levels format idx = record {
  category = sel;
  min_level = levels.min_level;
  max_level = levels.max_level;
  negate_level = levels.negate;
  format_name = format;
  output_idx = idx;
}

unfoldable pub parse_rules : Conf → Bytes → Bytes → Result Conf
parse_rules c key v = do
  guard (ltb (length c.rules) max_rules) err_config
  (sel, level) ← or_fail (split_last 46 key) err_config
  guard (leb 1 (length sel) && ltb (length sel) max_name_len) err_config
  levels ← or_fail (parse_rule_levels (clipped max_name_len level)) err_config
  guard (leb levels.min_level levels.max_level) err_config
  (format, idx) ← rule_value c.outputs (split_csv v (max_outputs + 1))
  ok (record c { rules = c.rules ++ file_rule sel levels format idx ∷ [] })

-- The keys of [build] with a boolean, which is compared with the build and reported.
abbrev pub build_flags : List Bytes
build_flags =
    codes "lockfree"
    ∷ codes "has async"
    ∷ codes "has color"
    ∷ codes "has rotate"
    ∷ codes "has hot reload"
    ∷ codes "has category"
    ∷ codes "has throttle"
    ∷ codes "has ini"
    ∷ []

unfoldable pub among : Bytes → List Bytes → Bool
among s [] = false
among s (t ∷ ts) = same s t || among s ts

-- A mismatch is reported alone, and any other key is passed over.
unfoldable pub parse_build : Conf → Bytes → Bytes → Result Conf
parse_build c key v =
    if among key build_flags then (do x ← or_fail (parse_bool v) err_config; ok c) else ok c
