-- ===== src/Routing/Unique.antt =====
-- src/core/registry.c: the table's names, its bounds and the places of its slots.
use hpulogc.Prelude.{
  ℕ, zero, suc, ◌+◌, ◌≤◌, ◌<◌, ◌≡◌, ◌≢◌, refl, sym, ap, ◌∙◌, ◌⊎◌, inl, inr, Bool, true, Bool-cases,
  ◌&&◌, List, [], ◌∷◌, ◌++◌, Option, none, some, Option-cases, arith, leb, ltb, ◌==◌, length,
  length-append, get_elem?, get_elem?-append_lt, get_elem?-append_end, set, length-set, same,
  same_iff, same_refl, Bytes,
}
use mathlib.Core.Option.{some-injective}
use hpulogc.Routing.Registry.{
  Slot, Registry, reg_max, reg_name_len, find_from, find, fresh, warn_full, lookup_from, lookup,
}

-- No slot has this name.
abbrev pub NotIn : Bytes → List Slot → Type 0
NotIn cat [] = Unit
NotIn cat (s ∷ ss) = (s.name ≢ cat) × NotIn cat ss

abbrev pub Distinct : List Slot → Type 0
Distinct [] = Unit
Distinct (s ∷ ss) = NotIn s.name ss × Distinct ss

abbrev pub AllShort : List Slot → Type 0
AllShort [] = Unit
AllShort (s ∷ ss) = (length s.name < reg_name_len) × AllShort ss

-- The names are distinct and short, and there are at most 64.
pub record IsValid (r : Registry) : Type 0 where
  pub bounded : length r.slots ≤ reg_max
  pub short : AllShort r.slots
  pub distinct : Distinct r.slots

abbrev test : Slot → Bytes → Bool
test s cat = length s.name == length cat && same s.name cat

test_self : (s : Slot) (cat : Bytes) → s.name ≡ cat → test s cat ≡ true
test_self s cat e = rw (e, same_refl cat) (ground arith)

-- What a search finds.
record FoundAt (i : ℕ) (ss : List Slot) (cat : Bytes) (j : ℕ) : Type 0 where
  place : ℕ
  at : Slot
  index : j ≡ i + place
  there : get_elem? ss place ≡ some at
  named : at.name ≡ cat

find_from-none : (i : ℕ) (ss : List Slot) (cat : Bytes) → find_from i ss cat ≡ none → NotIn cat ss
unfolding find_from
find_from-none i [] cat h = tt
find_from-none i (s ∷ ss) cat h = elim (Bool-cases (test s cat)) [
  | inl y ↦ ground arith
  | inr n ↦ (λ e. ground (arith, test_self s cat e), find_from-none (i + 1) ss cat (rw n at h))
]

find_from-FoundAt :
    (i : ℕ) (ss : List Slot) (cat : Bytes) (j : ℕ)
    → find_from i ss cat ≡ some j
    → FoundAt i ss cat j
unfolding find_from
find_from-FoundAt i [] cat j h = ground arith
find_from-FoundAt i (s ∷ ss) cat j h = elim (Bool-cases (test s cat)) [
  | inl y ↦ record {
    place = 0;
    at = s;
    index = ground arith;
    there = refl;
    named = (same_iff s.name cat).0 (ground arith);
  }
  | inr n ↦
      let f = find_from-FoundAt (i + 1) ss cat j (rw n at h) in
      record {
        place = suc f.place;
        at = f.at;
        index = omega (arith, f.index);
        there = f.there;
        named = f.named;
      }
]

find_from-append :
    (i : ℕ) (ss : List Slot) (s : Slot)
    → NotIn s.name ss
    → find_from i (ss ++ s ∷ []) s.name ≡ some (i + length ss)
unfolding find_from
find_from-append i [] s h = rw (same_refl s.name) (ground arith)
find_from-append i (x ∷ ss) s (n, h) = elim (Bool-cases (test x s.name)) [
  | inl y ↦ absurd (n ((same_iff x.name s.name).0 (ground arith)))
  | inr t ↦ rw t (find_from-append (i + 1) ss s h ∙ ap some (omega arith))
]

NotIn-append :
    (cat : Bytes) (ss : List Slot) (s : Slot)
    → NotIn cat ss
    → s.name ≢ cat
    → NotIn cat (ss ++ s ∷ [])
NotIn-append cat [] s h n = (n, tt)
NotIn-append cat (x ∷ ss) s (a, h) n = (a, NotIn-append cat ss s h n)

Distinct-append :
    (ss : List Slot) (s : Slot) → Distinct ss → NotIn s.name ss → Distinct (ss ++ s ∷ [])
Distinct-append [] s h n = (tt, tt)
Distinct-append (x ∷ ss) s (a, h) (m, n) =
    (NotIn-append x.name ss s a (λ e. m (sym e)), Distinct-append ss s h n)

AllShort-append :
    (ss : List Slot) (s : Slot)
    → AllShort ss
    → length s.name < reg_name_len
    → AllShort (ss ++ s ∷ [])
AllShort-append [] s h n = (n, tt)
AllShort-append (x ∷ ss) s (a, h) n = (a, AllShort-append ss s h n)

pub index_bound : (ss : List Slot) (i : ℕ) (s : Slot) → get_elem? ss i ≡ some s → i < length ss
index_bound [] i s h = ground arith
index_bound (x ∷ ss) zero s h = omega arith
index_bound (x ∷ ss) (suc i) s h = omega (arith, index_bound ss i s h)

-- The slots that were registered are where they were.
abbrev pub Stays : Registry → Registry → Type 0
Stays r r' = (i : ℕ) (s : Slot) → get_elem? r.slots i ≡ some s → get_elem? r'.slots i ≡ some s

-- What a call answers: the slot of the category, or none, and then the category is not registered,
-- and is too long or finds the table full.
abbrev pub Answers : Registry → Bytes → Option ℕ → Type 0
Answers r cat none = NotIn cat r.slots × ((reg_name_len ≤ length cat) ⊎ (length r.slots ≡ reg_max))
Answers r cat (some i) =
    (s : Slot) × (get_elem? r.slots i ≡ some s) × (s.name ≡ cat) × (find r cat ≡ some i)

pub warn_full-slots : (r : Registry) (cat : Bytes) → (warn_full r cat).slots ≡ r.slots
warn_full-slots r cat = ground arith

same_slots : (r r' : Registry) → r'.slots ≡ r.slots → IsValid r → IsValid r'
same_slots r r' e v = record {
  bounded = rw e v.bounded;
  short = rw e v.short;
  distinct = rw e v.distinct;
}

-- What a call of the lookup leaves and answers.
abbrev pub Registers : Registry → Bytes → Registry × Option ℕ → Type 0
Registers r cat (r', found) = IsValid r' × Stays r r' × Answers r' cat found

module _ (r : Registry) (cat : Bytes) (v : IsValid r) (n : NotIn cat r.slots) where
  lookup_new :
      length cat < reg_name_len
      → length r.slots < reg_max
      → Registers r cat (record r { slots = r.slots ++ fresh cat ∷ [] }, some (length r.slots))
  lookup_new short room = (
    record {
      bounded = omega (arith, length-append r.slots (fresh cat ∷ []));
      short = AllShort-append r.slots (fresh cat) v.short short;
      distinct = Distinct-append r.slots (fresh cat) v.distinct n;
    },
    λ i s h. get_elem?-append_lt r.slots (fresh cat ∷ []) i (index_bound r.slots i s h) ∙ h,
    (
      fresh cat,
      get_elem?-append_end r.slots [] (fresh cat),
      refl,
      find_from-append 0 r.slots (fresh cat) n ∙ ap some (omega arith),
    ),
  )

  lookup_none : Registers r cat (lookup_from none r cat)
  unfolding lookup_from
  lookup_none = elim (Bool-cases (leb reg_name_len (length cat))) [
    | inl long ↦ rw long (v, λ i s h. h, (n, inl (ground arith)))
    | inr short ↦ elim (Bool-cases (ltb (length r.slots) reg_max)) [
      | inl room ↦ rw (short, room) (lookup_new (ground arith) (ground arith))
      | inr full ↦
          let e = warn_full-slots r cat in
          rw (short, full)
            (
              same_slots r (warn_full r cat) e v,
              λ i s h. rw e h,
              (rw e n, inr (rw e (ground (arith, v.bounded)))),
            )
    ]
  ]

pub find-named :
    (r : Registry) (cat : Bytes) (i : ℕ)
    → find r cat ≡ some i
    → (s : Slot) × (get_elem? r.slots i ≡ some s) × (s.name ≡ cat)
find-named r cat i e =
    let f = find_from-FoundAt 0 r.slots cat i e in
    let p : i ≡ f.place = f.index ∙ omega arith in (f.at, rw p f.there, f.named)

-- `hpu_registry_lookup` on a valid table leaves a valid one, in which every slot is where it was and
-- as it was; it answers the one slot of the category; or none, and then the category has no slot,
-- and is too long for one or finds all 64 taken.
pub lookup-Registers : (r : Registry) (cat : Bytes) → IsValid r → Registers r cat (lookup r cat)
unfolding lookup_from
lookup-Registers r cat v = elim (Option-cases (find r cat)) [
  | inl e ↦ rw e (lookup_none r cat v (find_from-none 0 r.slots cat e))
  | inr (i, e) ↦
      let (s, there, named) = find-named r cat i e in rw e (v, λ j t h. h, (s, there, named, e))
]

-- One slot changes, not in its name.
module _ (s' : Slot) where
  NotIn-set :
      (cat : Bytes) (ss : List Slot) (i : ℕ) (s : Slot)
      → get_elem? ss i ≡ some s
      → s'.name ≡ s.name
      → NotIn cat ss
      → NotIn cat (set ss i s')
  NotIn-set cat [] i s h e n = tt
  NotIn-set cat (x ∷ ss) zero s h e (a, n) = (rw (e, ← some-injective x s h) a, n)
  NotIn-set cat (x ∷ ss) (suc i) s h e (a, n) = (a, NotIn-set cat ss i s h e n)

  AllShort-set :
      (ss : List Slot) (i : ℕ) (s : Slot)
      → get_elem? ss i ≡ some s
      → s'.name ≡ s.name
      → AllShort ss
      → AllShort (set ss i s')
  AllShort-set [] i s h e n = tt
  AllShort-set (x ∷ ss) zero s h e (a, n) = (rw (e, ← some-injective x s h) a, n)
  AllShort-set (x ∷ ss) (suc i) s h e (a, n) = (a, AllShort-set ss i s h e n)

  Distinct-set :
      (ss : List Slot) (i : ℕ) (s : Slot)
      → get_elem? ss i ≡ some s
      → s'.name ≡ s.name
      → Distinct ss
      → Distinct (set ss i s')
  Distinct-set [] i s h e n = tt
  Distinct-set (x ∷ ss) zero s h e (a, n) = (rw (e, ← some-injective x s h) a, n)
  Distinct-set (x ∷ ss) (suc i) s h e (a, n) =
      (NotIn-set x.name ss i s h e a, Distinct-set ss i s h e n)

  pub set-IsValid :
      (r : Registry) (i : ℕ) (s : Slot)
      → get_elem? r.slots i ≡ some s
      → s'.name ≡ s.name
      → IsValid r
      → IsValid (record r { slots = set r.slots i s' })
  set-IsValid r i s h e v = record {
    bounded = omega (arith, length-set r.slots i s', v.bounded);
    short = AllShort-set r.slots i s h e v.short;
    distinct = Distinct-set r.slots i s h e v.distinct;
  }
