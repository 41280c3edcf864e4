-- ===== src/Conf/LoadedFile.antt =====
-- src/conf/conf_file.c: every configuration that a file gives is within the limits.
use hpulogc.Prelude.{
  ℕ, ◌+◌, ◌≤◌, ◌<◌, ◌≡◌, inl, inr, Bool, true, false, not, ◌&&◌, ◌||◌, List, [], ◌∷◌, ◌++◌, Option,
  some, leb, ltb, ◌==◌, arith, ltb→lt, leb→le, length, length-append, Bytes, codes, same,
  Bool-cases, Option-cases,
}
use hpulogc.Conf.Result.{
  err_config, Ensures, ensured, failing, Ensures-bind, Ensures-or_fail, Ensures-guard, Ensures-if,
}
use hpulogc.Conf.Model.{
  max_outputs, max_rules, max_name_len, max_fmt_len, ConfOutput, ConfRule, Conf,
}
use hpulogc.Conf.Values.{
  parse_level, parse_bool, level_names, strip_quotes, trim, split_csv, clipped,
}
use hpulogc.Conf.Lines.{find_output, split_at, split_last, has_format, parse_formats}
use hpulogc.Conf.RuleLine.{
  Levels, level_span, has_byte, negated_level, parse_rule_levels, rule_targets, rule_value,
  file_rule, parse_rules, among, build_flags, parse_build,
}
use hpulogc.Conf.Accepted.{All, All-append, IsName}
use hpulogc.Conf.Limited.{IsLoaded, IsFileRule, ResolvedTo, index_of-lt}

find_output-lt :
    (i : ℕ) (outs : List ConfOutput) (name : Bytes) (k : ℕ)
    → find_output i outs name ≡ some k
    → k < i + length outs
unfolding find_output
find_output-lt i [] name k h = cc
find_output-lt i (o ∷ outs) name k h = ground (arith, find_output-lt (i + 1) outs name k)

found-ResolvedTo :
    (outs : List ConfOutput) (name : Bytes) → ResolvedTo (length outs) (find_output 0 outs name)
found-ResolvedTo outs name = elim (Option-cases (find_output 0 outs name)) [
  | inl e ↦ rw e tt
  | inr (k, e) ↦ rw e (omega (arith, find_output-lt 0 outs name k e))
]

rule_targets-ResolvedTo :
    (outs : List ConfOutput) (idx : List (Option ℕ)) (ps : List Bytes)
    → length idx ≤ max_outputs
    → All (ResolvedTo (length outs)) idx
    → Ensures
        (λ idx'. (length idx' ≤ max_outputs) × All (ResolvedTo (length outs)) idx')
        (rule_targets outs idx ps)
unfolding rule_targets
rule_targets-ResolvedTo outs idx [] h a = ensured idx (h, a)
rule_targets-ResolvedTo outs idx (p ∷ ps) h a =
    let name : Bytes = strip_quotes (trim p) in
    let one : List (Option ℕ) = find_output 0 outs name ∷ [] in
    Ensures-if (length name == 0) (λ e. rule_targets-ResolvedTo outs idx ps h a)
      λ e.
        Ensures-if (leb max_outputs (length idx)) (λ e'. failing err_config)
          λ e'.
            rule_targets-ResolvedTo outs (idx ++ one) ps (ground (arith, e', length-append idx one))
              (All-append (ResolvedTo (length outs)) idx one a (found-ResolvedTo outs name, tt))

-- The levels that a rule can name.
abbrev InRange : Levels → Type 0
InRange l = (l.min_level ≤ 6) × (l.max_level ≤ 6)

parse_level-le : (v : Bytes) (l : ℕ) → parse_level v ≡ some l → l ≤ 6
unfolding parse_level
parse_level-le v l h = omega (arith, index_of-lt 0 level_names v l h)

level_span-InRange :
    (negate : Bool) (body : Bytes) (l : Levels) → level_span negate body ≡ some l → InRange l
unfolding level_span
level_span-InRange negate body l h = elim (Option-cases (split_at 126 body)) [
  | inl e ↦ elim (Option-cases (parse_level body)) [
    | inl p ↦ let h' = rw (e, level_span, p) at h in cc
    | inr (a, p) ↦ let h' = rw (e, level_span, p) at h in ground (arith, parse_level-le body a p)
  ]
  | inr ((lo, hi), e) ↦ elim (Bool-cases (leb max_name_len (length lo))) [
    | inl b ↦ let h' = rw (e, level_span, b) at h in cc
    | inr b ↦ elim (Option-cases (parse_level lo)) [
      | inl p ↦ let h' = rw (e, level_span, b, p) at h in cc
      | inr (m, p) ↦ elim (Option-cases (parse_level hi)) [
        | inl q ↦ let h' = rw (e, level_span, b, p, q) at h in cc
        | inr (n, q) ↦
            let h' = rw (e, level_span, b, p, q) at h in
            ground (arith, parse_level-le lo m p, parse_level-le hi n q)
      ]
    ]
  ]
]

negated_level-InRange : (s : Bytes) (l : Levels) → negated_level s ≡ some l → InRange l
unfolding negated_level
negated_level-InRange [] l h = cc
negated_level-InRange (c ∷ s) l h = elim (Bool-cases (c == b'*' || has_byte 126 (c ∷ s))) [
  | inl e ↦ let h' = rw e at h in cc
  | inr e ↦ level_span-InRange true (c ∷ s) l (rw e at h)
]

parse_rule_levels-InRange : (s : Bytes) (l : Levels) → parse_rule_levels s ≡ some l → InRange l
unfolding parse_rule_levels
parse_rule_levels-InRange [] l h = level_span-InRange false [] l h
parse_rule_levels-InRange (c ∷ s) l h = elim (Bool-cases (c == b'!')) [
  | inl e ↦ negated_level-InRange s l (rw e at h)
  | inr e ↦ elim (Bool-cases (same (c ∷ s) (codes "*"))) [
    | inl e' ↦ let h' = rw (e, e') at h in ground arith
    | inr e' ↦ level_span-InRange false (c ∷ s) l (rw (e, e') at h)
  ]
]

rule_value-ResolvedTo :
    (outs : List ConfOutput) (parts : List Bytes)
    → Ensures
        (λ fi. IsName fi.0 × ((length fi.1 ≤ max_outputs) × All (ResolvedTo (length outs)) fi.1))
        (rule_value outs parts)
unfolding rule_value
rule_value-ResolvedTo outs [] = failing err_config
rule_value-ResolvedTo outs (f ∷ parts) =
    let format : Bytes = strip_quotes (trim f) in
    Ensures-guard (ltb (length format) max_name_len) err_config λ short.
      Ensures-bind (rule_targets-ResolvedTo outs [] parts (omega arith) tt)
        λ idx h. ensured (format, idx) (ltb→lt _ _ short, h)

pub parse_rules-IsLoaded :
    (c : Conf) (key v : Bytes) → IsLoaded c → Ensures IsLoaded (parse_rules c key v)
unfolding parse_rules
parse_rules-IsLoaded c key v h = Ensures-guard (ltb (length c.rules) max_rules) err_config λ room.
    Ensures-or_fail (split_last 46 key) err_config λ sl e.
      Ensures-guard (leb 1 (length sl.0) && ltb (length sl.0) max_name_len) err_config λ short.
        Ensures-or_fail (parse_rule_levels (clipped max_name_len sl.1)) err_config λ levels l.
          Ensures-guard (leb levels.min_level levels.max_level) err_config λ ordered.
            Ensures-bind (rule_value-ResolvedTo c.outputs (split_csv v (max_outputs + 1))) λ fi r.
              let rule : ConfRule = file_rule sl.0 levels fi.0 fi.1 in
              let range = parse_rule_levels-InRange (clipped max_name_len sl.1) levels l in
              let new : IsFileRule (length c.outputs) rule = record {
                category = ground (arith, short);
                ordered = leb→le _ _ ordered;
                in_range = range.1;
                format = r.0;
                outputs = r.1.0;
                resolved = r.1.1;
              } in
              ensured (record c { rules = c.rules ++ rule ∷ [] })
                (
                  h.0,
                  record {
                    output_count = h.1.output_count;
                    outputs_ok = h.1.outputs_ok;
                    rule_count = ground (arith, room, length-append c.rules (rule ∷ []));
                    rules_ok =
                        All-append (IsFileRule (length c.outputs)) c.rules (rule ∷ []) h.1.rules_ok
                          (new, tt);
                  },
                  h.2,
                  h.3,
                  h.4,
                )

pub parse_build-IsLoaded :
    (c : Conf) (key v : Bytes) → IsLoaded c → Ensures IsLoaded (parse_build c key v)
unfolding parse_build
parse_build-IsLoaded c key v h =
    Ensures-if (among key build_flags)
      (λ _. Ensures-or_fail (parse_bool v) err_config λ x e. ensured c h) (λ _. ensured c h)

pub parse_formats-IsLoaded :
    (compiles : Bytes → Bytes → Bool) (c : Conf) (key v : Bytes)
    → IsLoaded c
    → Ensures IsLoaded (parse_formats compiles c key v)
unfolding parse_formats
parse_formats-IsLoaded compiles c key v h =
    Ensures-guard (ltb (length key) max_name_len) err_config λ _.
      Ensures-guard (not (has_format c.formats key)) err_config λ _.
        Ensures-guard (ltb (length v) max_fmt_len) err_config
          λ _. Ensures-guard (compiles key v) err_config λ _. ensured _ h
