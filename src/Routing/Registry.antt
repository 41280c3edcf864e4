-- ===== src/Routing/Registry.antt =====
-- src/core/registry.c, `route_lookup` of src/core/pipeline.c and the level filter of
-- `hpu_pipeline_submit_ex`.
use hpulogc.Prelude.{
  ℕ, zero, suc, ◌+◌, ◌*◌, ◌/◌, ◌%◌, ◌^◌, Bool, false, ◌&&◌, ◌||◌, not, List, [], ◌∷◌, ◌++◌, Option,
  none, some, if◌then◌else◌, leb, ltb, ◌==◌, length, get_elem?, get_or, set, same, Bytes,
}
use hpulogc.Routing.Rules.{Rule, scan}

-- `HPU_REG_MAX`, `HPU_REG_NAME_LEN` and `HPU_REG_NO_OVERRIDE`
abbrev pub reg_max : ℕ
reg_max = 64

abbrev pub reg_name_len : ℕ
reg_name_len = 128

abbrev pub no_override : ℕ
no_override = 255

-- `hpu_reg_entry_t`, less its token bucket; the name has its length.
pub record Slot : Type 0 where
  pub name : Bytes
  pub hash : ℕ
  pub level_override : ℕ
  pub rule_for_level : List (Option ℕ)
  pub gen : ℕ

-- `hpu_registry_t`, less its mutex: the published slots, and the hashes that were warned of.
pub record Registry : Type 0 where
  pub slots : List Slot
  pub warned : List ℕ

-- The exclusive or of two words of `w` bits.
abbrev pub xor : ℕ → ℕ → ℕ → ℕ
xor zero a b = 0
xor (suc w) a b = (a % 2 + b % 2) % 2 + 2 * xor w (a / 2) (b / 2)

-- `fnv1a`, from the hash of the bytes before on.
unfoldable pub fnv1a_from : ℕ → Bytes → ℕ
fnv1a_from h [] = h
fnv1a_from h (c ∷ s) = fnv1a_from (xor 32 h c * 16777619 % 2 ^ 32) s

abbrev pub fnv1a : Bytes → ℕ
fnv1a s = fnv1a_from 2166136261 s

-- `hpu_registry_reset`
abbrev pub reset : Registry
reset = record { slots = []; warned = [] }

-- `hpu_registry_find`: the index of the slot, which the code hands out as its address.
unfoldable pub find_from : ℕ → List Slot → Bytes → Option ℕ
find_from i [] cat = none
find_from i (s ∷ ss) cat =
    if length s.name == length cat && same s.name cat then some i else find_from (i + 1) ss cat

abbrev pub find : Registry → Bytes → Option ℕ
find r cat = find_from 0 r.slots cat

-- The slot of a category that is new.
abbrev pub fresh : Bytes → Slot
fresh cat = record {
  name = cat;
  hash = fnv1a cat;
  level_override = no_override;
  rule_for_level = none ∷ none ∷ none ∷ none ∷ none ∷ none ∷ none ∷ [];
  gen = 0;
}

abbrev pub has : ℕ → List ℕ → Bool
has h [] = false
has h (x ∷ xs) = x == h || has h xs

-- The table is full: the rejected category is warned of once.
abbrev pub warn_full : Registry → Bytes → Registry
warn_full r cat =
    if not (has (fnv1a cat) r.warned) && ltb (length r.warned) reg_max
    then record r { warned = r.warned ++ fnv1a cat ∷ [] }
    else r

-- `hpu_registry_lookup` of a build with categories, under the mutex from the second search on, which
-- finds what the first one does.
unfoldable pub lookup_from : Option ℕ → Registry → Bytes → Registry × Option ℕ
lookup_from (some i) r cat = (r, some i)
lookup_from none r cat =
    if leb reg_name_len (length cat)
    then (r, none)
    else if ltb (length r.slots) reg_max
    then (record r { slots = r.slots ++ fresh cat ∷ [] }, some (length r.slots))
    else (warn_full r cat, none)

abbrev pub lookup : Registry → Bytes → Registry × Option ℕ
lookup r cat = lookup_from (find r cat) r cat

-- The rules of the levels 0 to 5, and none of OFF.
abbrev pub routes : List Rule → Bytes → List (Option ℕ)
routes rules cat =
    scan 0 cat 0 rules
    ∷ scan 1 cat 0 rules
    ∷ scan 2 cat 0 rules
    ∷ scan 3 cat 0 rules
    ∷ scan 4 cat 0 rules
    ∷ scan 5 cat 0 rules
    ∷ none
    ∷ []

-- `hpu_registry_refresh_route`
unfoldable pub refresh_route : Slot → List Rule → ℕ → Slot
refresh_route s rules gen =
    if s.gen == gen then s else record s { rule_for_level = routes rules s.name; gen = gen }

-- `cat_match_form`
abbrev pub match_form : Bytes → Bytes
match_form [] = 42 ∷ []
match_form (c ∷ cat) = c ∷ cat

-- The end of `route_lookup`, with what `hpu_registry_find` returned.
unfoldable pub route_at : Option ℕ → Registry → List Rule → ℕ → ℕ → Bytes → Registry × Option ℕ
route_at none r rules gen level cat = (r, scan level cat 0 rules)
route_at (some i) r rules gen level cat = elim (get_elem? r.slots i) [
  | none ↦ (r, none)
  | some s ↦
      let s' = refresh_route s rules gen in
      (record r { slots = set r.slots i s' }, get_or s'.rule_for_level level none)
]

-- `route_lookup` of a build with categories
unfoldable pub route_lookup : Registry → List Rule → ℕ → ℕ → Bytes → Registry × Option ℕ
route_lookup r rules gen level raw =
    route_at (find r (match_form raw)) r rules gen level (match_form raw)

-- The results of `hpu_registry_set_override`
pub data Override : Type 0 where
  done bad_config bad_argument : Override

abbrev pub override_at : Registry → Bytes → Option ℕ → ℕ → Registry × Override
override_at r cat none level =
    (r, if ltb (length cat) reg_name_len then bad_config else bad_argument)
override_at r cat (some i) level = elim (get_elem? r.slots i) [
  | none ↦ (r, done)
  | some s ↦ (record r { slots = set r.slots i (record s { level_override = level }) }, done)
]

-- `hpu_registry_set_override`; `level` is `none` for -1, which clears.
unfoldable pub set_override : Registry → Bytes → Option ℕ → Registry × Override
set_override r raw level =
    let cat = match_form raw in
    let (r', found) = lookup r cat in
    override_at r' cat found (elim level [ none ↦ no_override | some l ↦ l % 256 ])

abbrev pub override_of : Registry → Option ℕ → ℕ
override_of r none = no_override
override_of r (some i) = elim (get_elem? r.slots i) [
  | none ↦ no_override
  | some s ↦ s.level_override
]

-- Step 2 of `hpu_pipeline_submit_ex`: whether a record of a valid level passes, and the registry
-- with its category.
unfoldable pub level_filter : Registry → ℕ → ℕ → Bytes → Registry × Bool
level_filter r threshold level raw =
    let (r', found) = lookup r (match_form raw) in
    let override = override_of r' found in
    (r', not (not (override == no_override) && ltb level override) && not (ltb level threshold))

-- `hpulogc_level_enabled` while running, of a valid level, which only searches.
unfoldable pub level_enabled : Registry → ℕ → ℕ → Bytes → Bool
level_enabled r threshold level raw =
    let override = override_of r (find r (match_form raw)) in
    not (not (override == no_override) && ltb level override) && leb threshold level
