-- ===== src/Routing/Filter.antt =====
-- The level filter of src/core/pipeline.c, with the overrides of src/core/registry.c and the query of
-- src/core/core.c.
use mathlib.Core.Option.{some-injective}
use hpulogc.Prelude.{
  ℕ, zero, suc, ◌+◌, ◌%◌, ◌<◌, ◌≡◌, ◌≢◌, refl, sym, ap, ◌∙◌, inl, inr, Bool, true, false,
  Bool-cases, ◌&&◌, List, [], ◌∷◌, ◌++◌, Option, none, some, arith, if◌then◌else◌, leb, ltb, length,
  get_elem?, get_elem?-set_self, get_elem?-append_end, set, Bytes,
}
use hpulogc.Routing.Registry.{
  Slot, Registry, reg_max, reg_name_len, no_override, find, find_from, fresh, lookup_from, lookup,
  match_form, set_override, done, bad_config, bad_argument, override_at, override_of, level_filter,
  level_enabled,
}
use hpulogc.Routing.Unique.{IsValid, Answers, lookup-Registers, index_bound}

-- A search reads only the names.
find_from-set :
    (j : ℕ) (ss : List Slot) (i : ℕ) (s s' : Slot) (cat : Bytes)
    → get_elem? ss i ≡ some s
    → s'.name ≡ s.name
    → find_from j (set ss i s') cat ≡ find_from j ss cat
unfolding find_from
find_from-set j [] i s s' cat h e = refl
find_from-set j (x ∷ ss) zero s s' cat h e = rw (e, some-injective x s h) refl
find_from-set j (x ∷ ss) (suc i) s s' cat h e = rw (find_from-set (j + 1) ss i s s' cat h e) refl

override_of-some :
    (r : Registry) (i : ℕ) (s : Slot)
    → get_elem? r.slots i ≡ some s
    → override_of r (some i) ≡ s.level_override
override_of-some r i s e = rw (e, override_of) refl

override_of-new :
    (r : Registry) (cat : Bytes)
    → override_of (lookup_from none r cat).0 (lookup_from none r cat).1 ≡ no_override
unfolding lookup_from
override_of-new r cat = elim (Bool-cases (leb reg_name_len (length cat))) [
  | inl long ↦ rw long refl
  | inr short ↦ elim (Bool-cases (ltb (length r.slots) reg_max)) [
    | inl room ↦
        rw (short, room)
          (override_of-some (record r { slots = r.slots ++ fresh cat ∷ [] }) (length r.slots)
            (fresh cat) (get_elem?-append_end r.slots [] (fresh cat)))
    | inr full ↦ rw (short, full) refl
  ]
]

same_override :
    (r : Registry) (cat : Bytes) (o : Option ℕ)
    → override_of (lookup_from o r cat).0 (lookup_from o r cat).1 ≡ override_of r o
unfolding lookup_from
same_override r cat (some i) = refl
same_override r cat none = override_of-new r cat

-- On any table, `hpulogc_level_enabled` answers what the filter of a record then answers, though it
-- registers nothing.
pub level_enabled-level_filter :
    (r : Registry) (threshold level : ℕ) (raw : Bytes)
    → level_enabled r threshold level raw ≡ (level_filter r threshold level raw).1
unfolding level_enabled level_filter
level_enabled-level_filter r threshold level raw =
    let cat = match_form raw in let e = same_override r cat (find r cat) in rw (e) (ground arith)

-- The override that is set is the one that the next search finds.
override_of-set :
    (r : Registry) (cat : Bytes) (i : ℕ) (s : Slot) (level : ℕ)
    → find r cat ≡ some i
    → get_elem? r.slots i ≡ some s
    → override_of
        (override_at r cat (some i) level).0
        (find (override_at r cat (some i) level).0 cat)
      ≡ level
override_of-set r cat i s level f e =
    let s' : Slot = record s { level_override = level } in
    let r' : Registry = record r { slots = set r.slots i s' } in
    let g : find r' cat ≡ some i = find_from-set 0 r.slots i s s' cat e refl ∙ f in
    rw (e, override_at)
      (ap (override_of r') g
        ∙ override_of-some r' i s' (get_elem?-set_self r.slots i s' (index_bound r.slots i s e)))

override_at-done :
    (r : Registry) (cat : Bytes) (o : Option ℕ) (level : ℕ)
    → Answers r cat o
    → (override_at r cat o level).1 ≡ done
    → override_of (override_at r cat o level).0 (find (override_at r cat o level).0 cat) ≡ level
override_at-done r cat none level a h = absurd (refuses (ltb (length cat) reg_name_len) h)
  where
    refuses : (b : Bool) → (if b then bad_config else bad_argument) ≢ done
    refuses true = λ e. cc
    refuses false = λ e. cc
override_at-done r cat (some i) level (s, there, named, f) h =
    override_of-set r cat i s level f there

level_enabled_at :
    (r : Registry) (threshold level : ℕ) (raw : Bytes) (set_level : ℕ)
    → set_level < 7
    → override_of r (find r (match_form raw)) ≡ set_level
    → level_enabled r threshold level raw ≡ (leb set_level level && leb threshold level)
unfolding level_enabled
level_enabled_at r threshold level raw set_level n e = rw e (ground arith)

-- Once `hpu_registry_set_override` has set a level for a category, a record of the category passes the
-- filter exactly if its level reaches both this level and the global threshold.
pub level_filter-set_override :
    (r : Registry) (raw : Bytes) (set_level threshold level : ℕ)
    → IsValid r
    → set_level < 7
    → (set_override r raw (some set_level)).1 ≡ done
    → (level_filter (set_override r raw (some set_level)).0 threshold level raw).1
      ≡ (leb set_level level && leb threshold level)
unfolding set_override
level_filter-set_override r raw set_level threshold level v n h =
    let cat = match_form raw in
    let r' = (lookup r cat).0 in
    let o = (lookup r cat).1 in
    let low : set_level % 256 ≡ set_level = omega (arith, n) in
    let at = override_at-done r' cat o (set_level % 256) (lookup-Registers r cat v).2 h in
    let r'' = (override_at r' cat o (set_level % 256)).0 in
    sym (level_enabled-level_filter r'' threshold level raw)
    ∙ level_enabled_at r'' threshold level raw set_level n (at ∙ low)
