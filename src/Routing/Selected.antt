-- ===== src/Routing/Selected.antt =====
-- src/core/pipeline.c, `hpu_pipeline_selector_match`: the categories that a selector stands for.
use hpulogc.Prelude.{
  ℕ, ◌+◌, ◌-◌, ◌≤◌, ◌<◌, ◌≡◌, ◌≢◌, refl, sym, ap, ◌∙◌, ◌↔◌, ◌⊎◌, inl, inr, Bool, true, false,
  Bool-cases, ◌&&◌, ◌||◌, not, [], ◌∷◌, ◌++◌, arith, if◌then◌else◌, leb, ltb, ◌==◌, ==_iff, length,
  length-append, get_or, take, drop, same, same_iff, same_refl, Bytes, take-append_length,
  take-append-drop, drop-get_or, drop-ge, take-ge, get_or-append,
}
use hpulogc.Routing.Rules.{selector_match}

-- The empty selector and "*" select every category, "name.*" selects the name and its children, and
-- any selector selects the category of its own name.
abbrev pub Selects : Bytes → Bytes → Type 0
Selects sel cat =
    (sel ≡ [])
    ⊎ ((sel ≡ 42 ∷ [])
        ⊎ (((name : Bytes) × (sel ≡ name ++ 46 ∷ 42 ∷ [])
              × ((cat ≡ name) ⊎ ((child : Bytes) × (cat ≡ name ++ 46 ∷ child))))
            ⊎ (sel ≡ cat)))

-- A text of at least two bytes, of which the last two are these.
last_two :
    (s : Bytes) (a b : ℕ)
    → 2 ≤ length s
    → get_or s (length s - 2) 0 ≡ a
    → get_or s (length s - 1) 0 ≡ b
    → s ≡ take (length s - 2) s ++ a ∷ b ∷ []
last_two s a b h ea eb =
    let n = length s in
    let e : n - 2 + 1 ≡ n - 1 = omega arith in
    let f : n - 1 + 1 ≡ n = omega arith in
    let one = drop-get_or (n - 2) s 0 (omega arith) in
    let two = drop-get_or (n - 1) s 0 (omega arith) in
    let three = drop-ge n s (omega arith) in
    sym (take-append-drop (n - 2) s)
    ∙ ap (λ z. take (n - 2) s ++ z) (one ∙ rw (e, ea, two, eb, f, three) refl)

below_prefix :
    (cat p : Bytes)
    → length p ≤ length cat
    → take (length p) cat ≡ p
    → ((length cat == length p) || (get_or cat (length p) 0 == 46)) ≡ true
    → (cat ≡ p) ⊎ ((child : Bytes) × (cat ≡ p ++ 46 ∷ child))
below_prefix cat p h e t = elim (Bool-cases (length cat == length p)) [
  | inl s ↦ inl (sym (take-ge (length p) cat (ground arith)) ∙ e)
  | inr d ↦
      let lt : length p < length cat = ground arith in
      let dot : get_or cat (length p) 0 ≡ 46 = ground arith in
      inr (
        drop (length p + 1) cat,
        sym (take-append-drop (length p) cat) ∙ rw (e, drop-get_or (length p) cat 0 lt, dot) refl,
      )
]

-- What the branch of "name.*" answers.
abbrev in_family : Bytes → Bytes → Bool
in_family p cat =
    if ltb (length cat) (length p) || not (same p (take (length p) cat))
    then false
    else length cat == length p || get_or cat (length p) 0 == 46

in_family-Selects :
    (p cat : Bytes)
    → in_family p cat ≡ true
    → (cat ≡ p) ⊎ ((child : Bytes) × (cat ≡ p ++ 46 ∷ child))
in_family-Selects p cat h =
    below_prefix cat p (ground arith) (sym ((same_iff p (take (length p) cat)).0 (ground arith)))
      (ground arith)

family_at : (p rest : Bytes) → in_family p (p ++ 46 ∷ rest) ≡ true
family_at p rest =
    rw (take-append_length p (46 ∷ rest), same_refl p)
      (ground (arith, length-append p (46 ∷ rest), get_or-append p (46 ∷ rest) 0 0))

family_self : (p : Bytes) → in_family p p ≡ true
family_self p = rw (take-ge (length p) p (omega arith), same_refl p) (ground arith)

-- On "name.*" the code takes the branch of a family.
selector_match-family : (p cat : Bytes) → selector_match (p ++ 46 ∷ 42 ∷ []) cat ≡ in_family p cat
unfolding selector_match
selector_match-family p cat =
    let n : length (p ++ 46 ∷ 42 ∷ []) ≡ length p + 2 = length-append p (46 ∷ 42 ∷ []) in
    let a : length p + 2 - 2 ≡ length p = omega arith in
    let b : length p + 2 - 1 ≡ length p + 1 = omega arith in
    let c : get_or (p ++ 46 ∷ 42 ∷ []) (length p) 0 ≡ 46 = get_or_at p in
    rw (n, a, b, c, get_or-append p (46 ∷ 42 ∷ []) 1 0, take-append_length p (46 ∷ 42 ∷ []))
      (ground arith)
  where
    get_or_at : (p : Bytes) → get_or (p ++ 46 ∷ 42 ∷ []) (length p) 0 ≡ 46
    get_or_at [] = refl
    get_or_at (x ∷ p) = get_or_at p

selector_match_self : (cat : Bytes) → selector_match cat cat ≡ true
unfolding selector_match
selector_match_self cat = ground (arith, same_refl cat, same_refl (take (length cat - 2) cat))

Selects-selector_match : (sel cat : Bytes) → Selects sel cat → selector_match sel cat ≡ true
unfolding selector_match
Selects-selector_match sel cat (inl e) = rw e refl
Selects-selector_match sel cat (inr (inl e)) = rw e refl
Selects-selector_match sel cat (inr (inr (inl (p, e, inl f)))) =
    rw (e, f, selector_match-family p p) (family_self p)
Selects-selector_match sel cat (inr (inr (inl (p, e, inr (child, f))))) =
    rw (e, f, selector_match-family p (p ++ 46 ∷ child)) (family_at p child)
Selects-selector_match sel cat (inr (inr (inr e))) = rw e (selector_match_self cat)

is_nil : (s : Bytes) → length s ≡ 0 → s ≡ []
is_nil [] h = refl
is_nil (x ∷ s) h = ground arith

is_star : (s : Bytes) → length s ≡ 1 → get_or s 0 0 ≡ 42 → s ≡ 42 ∷ []
is_star [] h e = ground arith
is_star (x ∷ s) h e = rw (e, is_nil s (omega (arith, h))) refl

module _ (sel cat : Bytes) where
  selector_match-wild :
      2 ≤ length sel
      → get_or sel (length sel - 2) 0 ≡ 46
      → get_or sel (length sel - 1) 0 ≡ 42
      → selector_match sel cat ≡ true
      → Selects sel cat
  selector_match-wild n a b h =
      let p = take (length sel - 2) sel in
      let e = last_two sel 46 42 n a b in
      inr
        (inr (inl (p, e, in_family-Selects p cat (sym (selector_match-family p cat) ∙ rw (← e) h))))

  -- The code's test of the last two bytes fails.
  selector_match-plain :
      length sel ≢ 0
      → (length sel == 1 && get_or sel 0 0 == 42) ≡ false
      → (leb 2 (length sel)
          && get_or sel (length sel - 2) 0 == 46
          && get_or sel (length sel - 1) 0 == 42)
        ≡ false
      → selector_match sel cat ≡ true
      → sel ≡ cat
  unfolding selector_match
  selector_match-plain n s w h = (same_iff sel cat).0 (ground arith)

-- `hpu_pipeline_selector_match` answers that a selector takes a category exactly if the selector is
-- empty or "*", or is "name.*" and the category is the name or begins with the name and a dot, or
-- is the category.
pub selector_match-Selects : (sel cat : Bytes) → (selector_match sel cat ≡ true) ↔ Selects sel cat
selector_match-Selects sel cat = (
  λ h. elim (Bool-cases (length sel == 0)) [
    | inl z ↦ inl (is_nil sel ((==_iff (length sel) 0).0 z))
    | inr nz ↦ elim (Bool-cases (length sel == 1 && get_or sel 0 0 == 42)) [
      | inl s ↦ inr (inl (is_star sel (ground arith) (ground arith)))
      | inr ns ↦
          elim (Bool-cases (
            leb 2 (length sel)
            && get_or sel (length sel - 2) 0 == 46
            && get_or sel (length sel - 1) 0 == 42)) [
              | inl w ↦ selector_match-wild sel cat (ground arith) (ground arith) (ground arith) h
              | inr nw ↦ inr (inr (inr (selector_match-plain sel cat (ground arith) ns nw h)))
            ]
    ]
  ],
  Selects-selector_match sel cat,
)
