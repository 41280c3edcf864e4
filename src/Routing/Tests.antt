-- ===== src/Routing/Tests.antt =====
-- Routing at concrete inputs.
use hpulogc.Prelude.{
  ◌≡◌, ◌↔◌, refl, true, false, List, [], ◌∷◌, some, arith, Bytes, codes, ◌&&◌, leb,
}
use hpulogc.Routing.Rules.{Rule, selector_match, scan, rule_level_match}
use hpulogc.Routing.Registry.{
  reset, lookup, lookup_from, find_from, set_override, done, level_filter, level_enabled,
  fnv1a_from,
}
use hpulogc.Routing.Selected.{Selects, selector_match-Selects}
use hpulogc.Routing.Unique.{IsValid, Registers, lookup-Registers}
use hpulogc.Routing.Cached.{Op, filter, override, route, reload, run, by_rules, run-by_rules}
use hpulogc.Routing.Filter.{level_enabled-level_filter, level_filter-set_override}

abbrev net : Bytes
net = codes "net"

abbrev net_http : Bytes
net_http = codes "net.http"

abbrev family : Bytes
family = codes "net.*"

abbrev family_rule : Rule
family_rule = record {
  category = family;
  min_level = 2;
  max_level = 6;
  negate_level = false;
  format_name = [];
  output_idx = 0 ∷ [];
}

abbrev star_rule : Rule
star_rule = record family_rule { category = 42 ∷ []; min_level = 0 }

abbrev two_rules : List Rule
two_rules = family_rule ∷ star_rule ∷ []

abbrev script : List Op
script =
    filter 0 3 net_http
    ∷ route 3 net_http
    ∷ route 1 net_http
    ∷ override net (some 4)
    ∷ reload (star_rule ∷ [])
    ∷ route 3 net_http
    ∷ []

select_test :
    (selector_match family net ≡ true)
    × (selector_match family net_http ≡ true)
    × (selector_match family (codes "network") ≡ false)
    × (selector_match net net_http ≡ false)
unfolding selector_match
select_test = (refl, refl, refl, refl)

-- the hash of the empty text and of "a"
fnv1a_test :
    (fnv1a_from 2166136261 [] ≡ 2166136261) × (fnv1a_from 2166136261 (codes "a") ≡ 3826002220)
unfolding fnv1a_from
fnv1a_test = (refl, refl)

reset-IsValid : IsValid reset
reset-IsValid = record { bounded = omega arith; short = tt; distinct = tt }

by_rules-script : by_rules two_rules script ≡ some 0 ∷ some 1 ∷ some 0 ∷ []
unfolding scan rule_level_match selector_match
by_rules-script = refl

override_is_done : (set_override reset net (some 4)).1 ≡ done
unfolding set_override lookup_from find_from
override_is_done = refl

selector_match-Selects_example : (selector_match family net_http ≡ true) ↔ Selects family net_http
selector_match-Selects_example = selector_match-Selects family net_http

lookup-Registers_example : Registers reset net (lookup reset net)
lookup-Registers_example = lookup-Registers reset net reset-IsValid

run-by_rules_example : run reset two_rules 1 script ≡ by_rules two_rules script
run-by_rules_example =
    run-by_rules script two_rules (omega arith) (omega arith, (omega arith, (omega arith, tt)))

level_enabled-level_filter_example : level_enabled reset 2 3 net ≡ (level_filter reset 2 3 net).1
level_enabled-level_filter_example = level_enabled-level_filter reset 2 3 net

-- the level of the category is 4, the global threshold 2
level_filter-set_override_example :
    (level_filter (set_override reset net (some 4)).0 2 3 net).1 ≡ (leb 4 3 && leb 2 3)
level_filter-set_override_example =
    level_filter-set_override reset net 4 2 3 reset-IsValid (omega arith) override_is_done
