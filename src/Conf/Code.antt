-- ===== src/Conf/Code.antt =====
-- src/conf/conf_model.c, `hpu_conf_from_code`: a code configuration on top of the defaults. Allocation
-- succeeds.
use hpulogc.Prelude.{
  ℕ, ◌+◌, ◌*◌, ◌/◌, ◌%◌, Bool, true, false, not, ◌&&◌, ◌||◌, List, [], ◌∷◌, ◌++◌, Option, none,
  some, if◌then◌else◌, leb, ltb, ◌==◌, length, Bytes, codes, same,
}
use hpulogc.Conf.Result.{Result, ok, err, ◌>>=◌, ◌>>◌, guard, or_fail, err_invalid_arg, err_config}
use hpulogc.Conf.Model.{
  max_outputs, max_name_len, max_path_len, max_fmt_len, buffer_min, is_num, up_to, number, Output,
  RuleDesc, ConfOutput, ConfRule, builtin_formats, max_record_size,
}
use hpulogc.Conf.Declared.{named}

-- `for (...) names[i] = ...`, until a bad one.
unfoldable pub default_names : List (Option Bytes) → Result (List Bytes)
default_names [] = ok []
default_names (n ∷ ns) = do
  name ← or_fail (named n) err_invalid_arg
  names ← default_names ns
  ok (name ∷ names)

-- `snprintf(..., "out%zu", i)` for an index of two digits at most.
abbrev pub out_name : ℕ → Bytes
out_name i = codes "out" ++ (if ltb i 10 then (48 + i) ∷ [] else (48 + i / 10) ∷ (48 + i % 10) ∷ [])

abbrev pub shorter : Option Bytes → ℕ → Bool
shorter none n = true
shorter (some s) n = ltb (length s) n

abbrev pub bytes_of : Option Bytes → Bytes
bytes_of none = []
bytes_of (some s) = s

abbrev pub given : Option Bytes → Bool
given none = false
given (some s) = true

-- An output of the flat kind, by its name.
abbrev pub flat_output : Output → ℕ → ConfOutput
flat_output src i = record {
  desc = record src { rotate_naming = none };
  name_buf = out_name i;
  path_buf = [];
  naming_buf = [];
  handle = none;
  is_generic = false;
  type_name = [];
  kvs = [];
  kv_pool_len = 0;
  enabled = true;
  async = false;
  queue_size = 0;
}

-- A limit where the size is one of the reasons to rotate.
abbrev pub has_limit : Output → Bool
has_limit src = not ((is_num src.rotate 1 || is_num src.rotate 3) && src.max_size == 0)

abbrev pub file_output : Output → ℕ → ConfOutput
file_output src i = record (flat_output src i) {
  desc = src;
  path_buf = bytes_of src.path;
  naming_buf = bytes_of src.rotate_naming;
}

unfoldable pub code_output : Output → ℕ → Result ConfOutput
code_output src i =
    if is_num src.type 1
    then (do
      guard (given src.path && shorter src.path max_path_len) err_config
      guard (shorter src.rotate_naming max_fmt_len) err_config
      guard (has_limit src) err_config
      guard (up_to src.time_unit 3) err_config
      ok (file_output src i))
    else if is_num src.type 0
    then (do guard (is_num src.stream 0 || is_num src.stream 1) err_config; ok (flat_output src i))
    else err err_config

unfoldable pub code_outputs : ℕ → List Output → Result (List ConfOutput)
code_outputs i [] = ok []
code_outputs i (o ∷ os) = do out ← code_output o i; outs ← code_outputs (i + 1) os; ok (out ∷ outs)

-- The last output of this name, from index `i` on.
unfoldable pub last_named : ℕ → List ConfOutput → Bytes → Option ℕ
last_named i [] name = none
last_named i (o ∷ os) name = elim (last_named (i + 1) os name) [
  | some k ↦ some k
  | none ↦ (if same o.name_buf name then some i else none)
]

unfoldable pub rule_outputs : List ConfOutput → List (Option Bytes) → Result (List (Option ℕ))
rule_outputs outs [] = ok []
rule_outputs outs (n ∷ ns) = do
  name ← or_fail n err_config
  found ← or_fail (last_named 0 outs name) err_config
  rest ← rule_outputs outs ns
  ok (some found ∷ rest)

unfoldable pub is_builtin : Bytes → List (Bytes × Bytes) → Bool
is_builtin name [] = false
is_builtin name ((f, t) ∷ fs) = same name f || is_builtin name fs

-- NULL and the empty category are the star.
abbrev pub rule_category : Option Bytes → Bytes
rule_category none = codes "*"
rule_category (some []) = codes "*"
rule_category (some (c ∷ s)) = c ∷ s

abbrev pub level_range : RuleDesc → Bool
level_range src =
    leb (number src.min_level) (number src.max_level)
    && up_to src.min_level 6
    && up_to src.max_level 6

abbrev pub made_rule : RuleDesc → Bytes → List (Option ℕ) → ConfRule
made_rule src format idx = record {
  category = rule_category src.category;
  min_level = number src.min_level;
  max_level = number src.max_level;
  negate_level = false;
  format_name = format;
  output_idx = idx;
}

unfoldable pub code_rule : List ConfOutput → RuleDesc → Result ConfRule
code_rule outs src = do
  guard (level_range src) err_config
  format ← or_fail src.format err_config
  guard (is_builtin format builtin_formats) err_config
  guard (shorter src.category max_name_len) err_config
  guard (leb (length src.outputs) max_outputs) err_config
  idx ← rule_outputs outs src.outputs
  ok (made_rule src format idx)

unfoldable pub code_rules : List ConfOutput → List RuleDesc → Result (List ConfRule)
code_rules outs [] = ok []
code_rules outs (r ∷ rs) = do rule ← code_rule outs r; rules ← code_rules outs rs; ok (rule ∷ rules)

-- The size that the ring gets before the limit is tested.
unfoldable pub raised : ℕ → ℕ → ℕ
raised size max_log =
    let need = max_record_size max_log * 2 in
    if ltb size need || ltb size buffer_min
    then (if ltb buffer_min need then need else buffer_min)
    else size
