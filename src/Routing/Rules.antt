-- ===== src/Routing/Rules.antt =====
-- src/core/pipeline.c, `hpu_pipeline_selector_match`, and the level test of src/conf/conf_model.c: the
-- rules and the first of them that matches.
use hpulogc.Prelude.{
  ℕ, ◌+◌, ◌-◌, Bool, true, false, ◌&&◌, ◌||◌, not, List, [], ◌∷◌, Option, none, some, if◌then◌else◌,
  leb, ltb, ◌==◌, length, get_or, take, same, Bytes,
}

-- `hpu_conf_rule_t`; the levels are those of the enumeration, 0 to 6.
pub record Rule : Type 0 where
  pub category : Bytes
  pub min_level : ℕ
  pub max_level : ℕ
  pub negate_level : Bool
  pub format_name : Bytes
  pub output_idx : List ℕ

-- `hpu_conf_rule_level_match`
unfoldable pub rule_level_match : Rule → ℕ → Bool
rule_level_match r level =
    if r.negate_level
    then not (level == r.min_level)
    else leb r.min_level level && leb level r.max_level

-- `hpu_pipeline_selector_match`, on the bytes of the selector before its NUL: 42 is the star and 46
-- the dot.
unfoldable pub selector_match : Bytes → Bytes → Bool
selector_match sel cat =
    let n = length sel in
    let prefix = n - 2 in
    if n == 0
    then true
    else if n == 1 && get_or sel 0 0 == 42
    then true
    else if leb 2 n && get_or sel (n - 2) 0 == 46 && get_or sel (n - 1) 0 == 42
    then (if ltb (length cat) prefix || not (same (take prefix sel) (take prefix cat))
        then false
        else length cat == prefix || get_or cat prefix 0 == 46)
    else n == length cat && same sel cat

-- A rule takes a record of this level and this category.
abbrev pub rule_takes : ℕ → Bytes → Rule → Bool
rule_takes level cat r = rule_level_match r level && selector_match r.category cat

-- The loop over the rules, from the rule of index `i` on; `none` is -1.
unfoldable pub scan : ℕ → Bytes → ℕ → List Rule → Option ℕ
scan level cat i [] = none
scan level cat i (r ∷ rs) = if rule_takes level cat r then some i else scan level cat (i + 1) rs
