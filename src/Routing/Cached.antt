-- ===== src/Routing/Cached.antt =====
-- src/core/registry.c and `route_lookup` of src/core/pipeline.c: the routing caches over any sequence
-- of calls.
use mathlib.Core.Option.{some-injective}
use hpulogc.Prelude.{
  ℕ, zero, suc, ◌+◌, ◌%◌, ◌^◌, ◌≤◌, ◌<◌, ◌≡◌, refl, ap, ap₂, ◌∙◌, inl, inr, Bool-cases, List, [],
  ◌∷◌, ◌++◌, Option, none, some, Option-cases, arith, leb, ltb, ◌==◌, ==_iff, length, get_elem?,
  get_or, set, Bytes,
}
use hpulogc.Routing.Rules.{Rule, scan}
use hpulogc.Routing.Registry.{
  Slot, Registry, reg_name_len, reg_max, reset, find, fresh, lookup_from, lookup, routes,
  refresh_route, match_form, route_at, route_lookup, set_override, override_at, level_filter,
}
use hpulogc.Routing.Unique.{IsValid, warn_full-slots, find-named, lookup-Registers, set-IsValid}

-- The cache of a slot is not from a later generation, and is right if it is from this one.
abbrev pub IsFresh : List Rule → ℕ → Slot → Type 0
IsFresh rules gen s = (s.gen ≤ gen) × (s.gen ≡ gen → s.rule_for_level ≡ routes rules s.name)

abbrev pub AllFresh : List Rule → ℕ → List Slot → Type 0
AllFresh rules gen [] = Unit
AllFresh rules gen (s ∷ ss) = IsFresh rules gen s × AllFresh rules gen ss

AllFresh-get :
    (rules : List Rule) (gen : ℕ) (ss : List Slot) (i : ℕ) (s : Slot)
    → get_elem? ss i ≡ some s
    → AllFresh rules gen ss
    → IsFresh rules gen s
AllFresh-get rules gen [] i s h f = ground arith
AllFresh-get rules gen (x ∷ ss) zero s h (a, f) = rw (← some-injective x s h) a
AllFresh-get rules gen (x ∷ ss) (suc i) s h (a, f) = AllFresh-get rules gen ss i s h f

AllFresh-set :
    (rules : List Rule) (gen : ℕ) (ss : List Slot) (i : ℕ) (s : Slot)
    → IsFresh rules gen s
    → AllFresh rules gen ss
    → AllFresh rules gen (set ss i s)
AllFresh-set rules gen [] i s h f = tt
AllFresh-set rules gen (x ∷ ss) zero s h (a, f) = (h, f)
AllFresh-set rules gen (x ∷ ss) (suc i) s h (a, f) = (a, AllFresh-set rules gen ss i s h f)

AllFresh-append :
    (rules : List Rule) (gen : ℕ) (ss : List Slot) (s : Slot)
    → IsFresh rules gen s
    → AllFresh rules gen ss
    → AllFresh rules gen (ss ++ s ∷ [])
AllFresh-append rules gen [] s h f = (h, tt)
AllFresh-append rules gen (x ∷ ss) s h (a, f) = (a, AllFresh-append rules gen ss s h f)

-- A swap of the configuration makes every cache one of an earlier generation.
AllFresh-reload :
    (rules rules' : List Rule) (gen : ℕ) (ss : List Slot)
    → AllFresh rules gen ss
    → AllFresh rules' (gen + 1) ss
AllFresh-reload rules rules' gen [] f = tt
AllFresh-reload rules rules' gen (s ∷ ss) (a, f) =
    ((omega (arith, a.0), λ e. absurd (omega (arith, a.0))), AllFresh-reload rules rules' gen ss f)

lookup_from-AllFresh :
    (rules : List Rule) (gen : ℕ) (r : Registry) (cat : Bytes) (o : Option ℕ)
    → 0 < gen
    → AllFresh rules gen r.slots
    → AllFresh rules gen (lookup_from o r cat).0.slots
unfolding lookup_from
lookup_from-AllFresh rules gen r cat (some i) g f = f
lookup_from-AllFresh rules gen r cat none g f =
    let a : AllFresh rules gen (r.slots ++ fresh cat ∷ []) =
      AllFresh-append rules gen r.slots (fresh cat) (omega arith, λ e. absurd (omega arith)) f in
    elim (Bool-cases (leb reg_name_len (length cat))) [
      | inl long ↦ rw long f
      | inr short ↦ elim (Bool-cases (ltb (length r.slots) reg_max)) [
        | inl room ↦ rw (short, room) a
        | inr full ↦ rw (short, full, warn_full-slots r cat) f
      ]
    ]

scan_of :
    (rules : List Rule) (level : ℕ) (cat : Bytes)
    → level < 6
    → get_or (routes rules cat) level none ≡ scan level cat 0 rules
scan_of rules zero cat h = refl
scan_of rules (suc zero) cat h = refl
scan_of rules (suc (suc zero)) cat h = refl
scan_of rules (suc (suc (suc zero))) cat h = refl
scan_of rules (suc (suc (suc (suc zero)))) cat h = refl
scan_of rules (suc (suc (suc (suc (suc zero))))) cat h = refl
scan_of rules (suc (suc (suc (suc (suc (suc level)))))) cat h = absurd (omega arith)

refresh_route-IsFresh :
    (s : Slot) (rules : List Rule) (gen : ℕ)
    → IsFresh rules gen s
    → ((refresh_route s rules gen).rule_for_level ≡ routes rules s.name)
      × ((refresh_route s rules gen).name ≡ s.name)
      × IsFresh rules gen (refresh_route s rules gen)
unfolding refresh_route
refresh_route-IsFresh s rules gen f = elim (Bool-cases (s.gen == gen)) [
  | inl y ↦ rw y (f.1 ((==_iff s.gen gen).0 y), refl, f)
  | inr n ↦ rw n (refl, refl, (omega arith, λ e. refl))
]

-- `route_lookup` answers the first rule that takes the record, and keeps the table as it should be.
abbrev Routes : Registry → List Rule → ℕ → ℕ → Bytes → Registry × Option ℕ → Type 0
Routes r rules gen level cat (r', rule) =
    (rule ≡ scan level cat 0 rules) × AllFresh rules gen r'.slots

route_at-Routes :
    (r : Registry) (rules : List Rule) (gen level : ℕ) (cat : Bytes)
    → level < 6
    → AllFresh rules gen r.slots
    → IsValid r
    → (o : Option ℕ) → find r cat ≡ o
    → Routes r rules gen level cat (route_at o r rules gen level cat)
      × IsValid (route_at o r rules gen level cat).0
unfolding route_at
route_at-Routes r rules gen level cat l f v none e = ((refl, f), v)
route_at-Routes r rules gen level cat l f v (some i) e =
    let (s, there, named) = find-named r cat i e in
    let (table, same_name, ok) =
      refresh_route-IsFresh s rules gen (AllFresh-get rules gen r.slots i s there f) in
    rw (there, route_at)
      (
        (
          ap (λ t. get_or t level none) table
              ∙ ap (λ n. get_or (routes rules n) level none) named
              ∙ scan_of rules level cat l,
          AllFresh-set rules gen r.slots i _ ok f,
        ),
        set-IsValid _ r i s there same_name v,
      )

-- A client's calls: the filter of a record, an override, a record that is routed, and a swap of the
-- configuration.
pub data Op : Type 0 where
  filter : ℕ → ℕ → Bytes → Op
  override : Bytes → Option ℕ → Op
  route : ℕ → Bytes → Op
  reload : List Rule → Op

-- The answers of the routings, by the code. A swap counts the generation in 32 bits.
unfoldable pub run : Registry → List Rule → ℕ → List Op → List (Option ℕ)
run r rules gen [] = []
run r rules gen (filter threshold level cat ∷ ops) =
    run (level_filter r threshold level cat).0 rules gen ops
run r rules gen (override cat level ∷ ops) = run (set_override r cat level).0 rules gen ops
run r rules gen (route level cat ∷ ops) =
    let (r', rule) = route_lookup r rules gen level cat in rule ∷ run r' rules gen ops
run r rules gen (reload rules' ∷ ops) = run r rules' ((gen + 1) % 2 ^ 32) ops

-- The answers by the rules alone: the first that takes the record.
abbrev pub by_rules : List Rule → List Op → List (Option ℕ)
by_rules rules [] = []
by_rules rules (filter threshold level cat ∷ ops) = by_rules rules ops
by_rules rules (override cat level ∷ ops) = by_rules rules ops
by_rules rules (route level cat ∷ ops) = scan level (match_form cat) 0 rules ∷ by_rules rules ops
by_rules rules (reload rules' ∷ ops) = by_rules rules' ops

-- The records that are routed have one of the six levels.
abbrev pub AllLevels : List Op → Type 0
AllLevels [] = Unit
AllLevels (route level cat ∷ ops) = (level < 6) × AllLevels ops
AllLevels (filter threshold level cat ∷ ops) = AllLevels ops
AllLevels (override cat level ∷ ops) = AllLevels ops
AllLevels (reload rules' ∷ ops) = AllLevels ops

abbrev Sound : List Rule → ℕ → Registry → Type 0
Sound rules gen r = IsValid r × AllFresh rules gen r.slots

lookup-Sound :
    (rules : List Rule) (gen : ℕ) (r : Registry) (cat : Bytes)
    → 0 < gen
    → Sound rules gen r
    → Sound rules gen (lookup r cat).0
lookup-Sound rules gen r cat g (v, f) =
    ((lookup-Registers r cat v).0, lookup_from-AllFresh rules gen r cat (find r cat) g f)

override_at-Sound :
    (rules : List Rule) (gen : ℕ) (r : Registry) (cat : Bytes) (o : Option ℕ) (level : ℕ)
    → Sound rules gen r
    → Sound rules gen (override_at r cat o level).0
override_at-Sound rules gen r cat none level h = h
override_at-Sound rules gen r cat (some i) level (v, f) =
    elim (Option-cases (get_elem? r.slots i)) [
      | inl e ↦ rw (e, override_at) (v, f)
      | inr (s, e) ↦
          rw (e, override_at)
            (
              set-IsValid _ r i s e refl v,
              AllFresh-set rules gen r.slots i _ (AllFresh-get rules gen r.slots i s e f) f,
            )
    ]

set_override-Sound :
    (rules : List Rule) (gen : ℕ) (r : Registry) (raw : Bytes) (level : Option ℕ)
    → 0 < gen
    → Sound rules gen r
    → Sound rules gen (set_override r raw level).0
unfolding set_override
set_override-Sound rules gen r raw level g h =
    let cat = match_form raw in
    override_at-Sound rules gen (lookup r cat).0 cat (lookup r cat).1 _
      (lookup-Sound rules gen r cat g h)

level_filter-Sound :
    (rules : List Rule) (gen : ℕ) (r : Registry) (threshold level : ℕ) (raw : Bytes)
    → 0 < gen
    → Sound rules gen r
    → Sound rules gen (level_filter r threshold level raw).0
unfolding level_filter
level_filter-Sound rules gen r threshold level raw g h =
    lookup-Sound rules gen r (match_form raw) g h

small_mod : (n : ℕ) → n < 2 ^ 32 → n % 2 ^ 32 ≡ n
small_mod n h = omega arith

reload-Sound :
    (rules rules' : List Rule) (gen : ℕ) (r : Registry)
    → gen + 1 < 2 ^ 32
    → Sound rules gen r
    → Sound rules' ((gen + 1) % 2 ^ 32) r
reload-Sound rules rules' gen r g (v, f) =
    rw (small_mod (gen + 1) g) (v, AllFresh-reload rules rules' gen r.slots f)

run-by_rules_from :
    (ops : List Op) (r : Registry) (rules : List Rule) (gen : ℕ)
    → Sound rules gen r
    → 0 < gen
    → gen + length ops < 2 ^ 32
    → AllLevels ops
    → run r rules gen ops ≡ by_rules rules ops
unfolding run route_lookup
run-by_rules_from [] r rules gen h g n l = refl
run-by_rules_from (filter threshold level cat ∷ ops) r rules gen h g n l =
    run-by_rules_from ops _ rules gen (level_filter-Sound rules gen r threshold level cat g h) g
      (omega (arith, n)) l
run-by_rules_from (override cat level ∷ ops) r rules gen h g n l =
    run-by_rules_from ops _ rules gen (set_override-Sound rules gen r cat level g h) g
      (omega (arith, n)) l
run-by_rules_from (route level cat ∷ ops) r rules gen (v, f) g n (l, ls) =
    let c = match_form cat in
    let ((answer, fresh'), v') = route_at-Routes r rules gen level c l f v (find r c) refl in
    ap₂ ◌∷◌ answer (run-by_rules_from ops _ rules gen (v', fresh') g (omega (arith, n)) ls)
run-by_rules_from (reload rules' ∷ ops) r rules gen h g n l =
    let e : (gen + 1) % 2 ^ 32 ≡ gen + 1 = small_mod (gen + 1) (omega (arith, n)) in
    run-by_rules_from ops r rules' ((gen + 1) % 2 ^ 32)
      (reload-Sound rules rules' gen r (omega (arith, n)) h) (rw e (omega arith))
      (rw e (omega (arith, n))) l

-- From an empty table and the first generation, whatever records are filtered and routed, overrides
-- set and configurations swapped in, fewer than 2 ^ 32 - 1 calls: every routing, by the cache
-- or without it, answers the first rule of the configuration in force that takes the record.
pub run-by_rules :
    (ops : List Op) (rules : List Rule)
    → 1 + length ops < 2 ^ 32
    → AllLevels ops
    → run reset rules 1 ops ≡ by_rules rules ops
run-by_rules ops rules n l =
    run-by_rules_from ops reset rules 1
      (record { bounded = omega arith; short = tt; distinct = tt }, tt) (omega arith) n l
