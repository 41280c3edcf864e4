-- ===== src/Conf/Planned.antt =====
-- src/conf/conf_model.c: the plan of a reload takes no handle twice.
use mathlib.Core.Option.{some-injective}
use mathlib.Core.Path.{subst}
use hpulogc.Prelude.{
  ℕ, suc, ◌+◌, ◌≡◌, ◌≢◌, refl, sym, ap, ◌∙◌, true, Bool-cases, arith, if◌then◌else◌, inl, inr, List,
  [], ◌∷◌, Option, none, some, Option-cases, Bytes, get_elem?, same, same_iff, same_refl,
}
use hpulogc.Conf.Result.{Result-cases, ok}
use hpulogc.Conf.Model.{max_path_len, ConfOutput}
use hpulogc.Conf.Paths.{path_normalize}
use hpulogc.Conf.Finalize.{is_file, no_duplicate, check_dup_paths}
use hpulogc.Conf.Reload.{reusable, reuse_from, reuse_plan}
use hpulogc.Conf.Accepted.{All}

-- Index `j` is reused by no entry.
abbrev pub Unused : ℕ → List (Option ℕ) → Type 0
Unused j plan = All (λ e. e ≢ some j) plan

abbrev pub Distinct : List (Option ℕ) → Type 0
Distinct [] = Unit
Distinct (none ∷ plan) = Distinct plan
Distinct (some j ∷ plan) = Unused j plan × Distinct plan

-- The old output that an entry names is open and has the path.
pub record Reuses (olds : List ConfOutput) (j : ℕ) (path : Bytes) : Type 0 where
  pub old : ConfOutput
  pub handle : ℕ
  pub at : get_elem? olds j ≡ some old
  pub open_handle : old.handle ≡ some handle
  pub same_path : old.path_buf ≡ path

-- No later file output has this normal form.
abbrev Clear : Bytes → List ConfOutput → Type 0
Clear na os = All (λ o. is_file o ≡ true → path_normalize o.path_buf max_path_len ≢ some na) os

no_duplicate-Clear : (na : Bytes) (os : List ConfOutput) → no_duplicate na os ≡ ok tt → Clear na os
unfolding no_duplicate
no_duplicate-Clear na [] h = tt
no_duplicate-Clear na (o ∷ os) h = elim (Bool-cases (is_file o)) [
  | inr e ↦ (λ f. cc, no_duplicate-Clear na os (rw (no_duplicate, e) at h))
  | inl e ↦ elim (Option-cases (path_normalize o.path_buf max_path_len)) [
    | inl p ↦ let h' = rw (no_duplicate, e, p) at h in cc
    | inr (nb, p) ↦ elim (Bool-cases (same na nb)) [
      | inl s ↦ let h' = rw (no_duplicate, e, p, s) at h in cc
      | inr s ↦
          let h' = rw (no_duplicate, e, p, s) at h in
          (λ f q. let r = same_refl na in cc, no_duplicate-Clear na os h')
    ]
  ]
]

reusable-Reuses :
    (olds : List ConfOutput) (j : ℕ) (old new : ConfOutput)
    → get_elem? olds j ≡ some old
    → reusable old new ≡ true
    → Reuses olds j new.path_buf
reusable-Reuses olds j old new at h = elim (Option-cases old.handle) [
  | inl o ↦ ground (arith, o)
  | inr (hd, o) ↦ elim (Bool-cases (same old.path_buf new.path_buf)) [
    | inl s ↦ record {
      old = old;
      handle = hd;
      at = at;
      open_handle = o;
      same_path = (same_iff old.path_buf new.path_buf).0 s;
    }
    | inr s ↦ ground (arith, s)
  ]
]

reuse_from-Reuses :
    (olds : List ConfOutput) (j k : ℕ) (new : ConfOutput)
    → reuse_from j olds new ≡ some k
    → (i : ℕ) × (k ≡ j + i) × Reuses olds i new.path_buf
unfolding reuse_from
reuse_from-Reuses [] j k new h = cc
reuse_from-Reuses (old ∷ olds) j k new h = elim (Bool-cases (reusable old new)) [
  | inl e ↦ (
    0,
    (let same_index : j ≡ k = some-injective j k (rw (reuse_from, e) at h) in
        omega (arith, same_index)),
    reusable-Reuses (old ∷ olds) 0 old new refl e,
  )
  | inr e ↦
      let (i, p, r) = reuse_from-Reuses olds (j + 1) k new (rw (reuse_from, e) at h) in
      (
        suc i,
        omega (arith, p),
        record {
          old = r.old;
          handle = r.handle;
          at = r.at;
          open_handle = r.open_handle;
          same_path = r.same_path;
        },
      )
]

-- An entry of the plan names an old output that is open and has the path of the new one.
abbrev pub Follows : List ConfOutput → List ConfOutput → List (Option ℕ) → Type 0
Follows olds [] [] = Unit
Follows olds (new ∷ news) (none ∷ plan) = Follows olds news plan
Follows olds (new ∷ news) (some j ∷ plan) = Reuses olds j new.path_buf × Follows olds news plan
Follows olds [] (e ∷ plan) = ⊥
Follows olds (new ∷ news) [] = ⊥

entry-Reuses :
    (olds : List ConfOutput) (new : ConfOutput) (k : ℕ)
    → (if is_file new then reuse_from 0 olds new else none) ≡ some k
    → (is_file new ≡ true) × Reuses olds k new.path_buf
entry-Reuses olds new k h = elim (Bool-cases (is_file new)) [
  | inr e ↦ let h' = rw e at h in cc
  | inl e ↦
      let (i, p, r) = reuse_from-Reuses olds 0 k new (rw e at h) in
      let index : i ≡ k = omega (arith, p) in (e, subst (λ i. Reuses olds i new.path_buf) index r)
]

pub reuse_plan-Follows : (olds news : List ConfOutput) → Follows olds news (reuse_plan olds news)
unfolding reuse_plan
reuse_plan-Follows olds [] = tt
reuse_plan-Follows olds (new ∷ news) =
    elim (Option-cases (if is_file new then reuse_from 0 olds new else none)) [
      | inl e ↦ rw (reuse_plan, e) (reuse_plan-Follows olds news)
      | inr (k, e) ↦
          rw (reuse_plan, e) ((entry-Reuses olds new k e).1, reuse_plan-Follows olds news)
    ]

-- An index whose old output has a normal form that no later output has is not used again.
Clear-Unused :
    (olds news : List ConfOutput) (j : ℕ) (path na : Bytes)
    → Reuses olds j path
    → path_normalize path max_path_len ≡ some na
    → Clear na news
    → Unused j (reuse_plan olds news)
unfolding reuse_plan
Clear-Unused olds [] j path na r n c = tt
Clear-Unused olds (new ∷ news) j path na r n c = (
  λ e.
      let (f, r') = entry-Reuses olds new j e in
      let same_old : r'.old ≡ r.old = some-injective r'.old r.old (sym r'.at ∙ r.at) in
      let same_path =
        sym r'.same_path ∙ ap (λ (o : ConfOutput). o.path_buf) same_old ∙ r.same_path in
      c.0 f (ap (λ p. path_normalize p max_path_len) same_path ∙ n),
  Clear-Unused olds news j path na r n c.1,
)

-- The plan for outputs whose paths are checked reuses no old output twice.
pub reuse_plan-Distinct :
    (olds news : List ConfOutput) → check_dup_paths news ≡ ok tt → Distinct (reuse_plan olds news)
unfolding check_dup_paths reuse_plan
reuse_plan-Distinct olds [] h = tt
reuse_plan-Distinct olds (new ∷ news) h = elim (Bool-cases (is_file new)) [
  | inr e ↦ rw (reuse_plan, e) (reuse_plan-Distinct olds news (rw (check_dup_paths, e) at h))
  | inl e ↦ elim (Option-cases (path_normalize new.path_buf max_path_len)) [
    | inl p ↦ let h' = rw (check_dup_paths, e, p) at h in cc
    | inr (na, p) ↦ elim (Result-cases (no_duplicate na news)) [
      | inr (x, d) ↦ let h' = rw (check_dup_paths, e, p, d) at h in cc
      | inl (t, d) ↦
          let rest = reuse_plan-Distinct olds news (rw (check_dup_paths, e, p, d) at h) in
          elim (Option-cases (reuse_from 0 olds new)) [
            | inl q ↦ rw (reuse_plan, e, q) rest
            | inr (j, q) ↦
                let (i, k, r) = reuse_from-Reuses olds 0 j new q in
                let index : i ≡ j = omega (arith, k) in
                rw (reuse_plan, e, q)
                  (
                    Clear-Unused olds news j new.path_buf na
                        (subst (λ i. Reuses olds i new.path_buf) index r) p
                        (no_duplicate-Clear na news d),
                    rest,
                  )
          ]
    ]
  ]
]
