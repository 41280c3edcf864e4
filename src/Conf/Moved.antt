-- ===== src/Conf/Moved.antt =====
-- src/conf/conf_model.c (`hpu_conf_finalize_reload`) with the move of the handles of
-- src/core/hotreload.c: which handles the outputs of the new snapshot have.
use mathlib.Core.Path.{subst}
use hpulogc.Prelude.{
  ℕ, inl, inr, Bool-cases, if◌then◌else◌, zero, suc, ◌≡◌, ◌≢◌, refl, ap, ◌∙◌, List, [], ◌∷◌, ◌++◌,
  Option, none, some, get_elem?, set, ℤ, pos,
}
use hpulogc.Conf.Result.{err_config, Result-cases}
use hpulogc.Conf.Model.{ConfOutput, Conf}
use hpulogc.Conf.Finalize.{Features, validated}
use hpulogc.Conf.Open.{
  err_io, Call, Opening, Opening-cases, open_call, severity, is_config, Env, Final,
}
use hpulogc.Conf.Reload.{open_new, finalize_reload, reuse_plan, move_handles, released, taken}
use hpulogc.Conf.Accepted.{All}
use hpulogc.Conf.Planned.{
  Unused, Distinct, Reuses, Follows, reuse_plan-Follows, reuse_plan-Distinct,
}
use hpulogc.Conf.Validated.{validated-code, validated-IsChecked}

get_elem?-set_other :
    {A : Type 0} (xs : List A) (i k : ℕ) (v : A) → k ≢ i → get_elem? (set xs i v) k ≡ get_elem? xs k
get_elem?-set_other [] i k v n = refl
get_elem?-set_other (x ∷ xs) zero zero v n = absurd (n refl)
get_elem?-set_other (x ∷ xs) zero (suc k) v n = refl
get_elem?-set_other (x ∷ xs) (suc i) zero v n = refl
get_elem?-set_other (x ∷ xs) (suc i) (suc k) v n = get_elem?-set_other xs i k v (λ e. n (ap suc e))

-- An output that is not reused has a handle; a reused one has the path of its open old output.
abbrev pub Opened : List ConfOutput → List ConfOutput → List (Option ℕ) → Type 0
Opened olds [] [] = Unit
Opened olds (new ∷ news) (none ∷ plan) = ((h : ℕ) × (new.handle ≡ some h)) × Opened olds news plan
Opened olds (new ∷ news) (some j ∷ plan) = Reuses olds j new.path_buf × Opened olds news plan
Opened olds [] (e ∷ plan) = ⊥
Opened olds (new ∷ news) [] = ⊥

-- The output has the handle of the old output at `j`, which is open and has its path.
pub record Inherits (olds : List ConfOutput) (j : ℕ) (new : ConfOutput) : Type 0 where
  pub reuses : Reuses olds j new.path_buf
  pub inherited : new.handle ≡ some reuses.handle

-- Every output has a handle: one of its own, or the one that it inherits.
abbrev pub Equipped : List ConfOutput → List ConfOutput → List (Option ℕ) → Type 0
Equipped olds [] [] = Unit
Equipped olds (new ∷ news) (none ∷ plan) =
    ((h : ℕ) × (new.handle ≡ some h)) × Equipped olds news plan
Equipped olds (new ∷ news) (some j ∷ plan) = Inherits olds j new × Equipped olds news plan
Equipped olds [] (e ∷ plan) = ⊥
Equipped olds (new ∷ news) [] = ⊥

-- The old outputs that the plan names are as they were.
abbrev SameAt : List ConfOutput → List ConfOutput → Option ℕ → Type 0
SameAt olds olds' none = Unit
SameAt olds olds' (some j) = get_elem? olds' j ≡ get_elem? olds j

SameAt-released :
    (olds olds' : List ConfOutput) (j : ℕ) (plan : List (Option ℕ))
    → Unused j plan
    → All (SameAt olds olds') plan
    → All (SameAt olds (released olds' j)) plan
SameAt-released olds olds' j [] u a = tt
SameAt-released olds olds' j (none ∷ plan) u a = (tt, SameAt-released olds olds' j plan u.1 a.1)
SameAt-released olds olds' j (some k ∷ plan) u a = (
  elim (get_elem? olds' j)
      as (λ o.
        get_elem? (elim o [ none ↦ olds' | some old ↦ set olds' j (record old { handle = none }) ])
          k
        ≡ get_elem? olds k) [
          | none ↦ a.0
          | some old ↦
              get_elem?-set_other olds' j k (record old { handle = none }) (λ e. u.0 (ap some e))
              ∙ a.0
        ],
  SameAt-released olds olds' j plan u.1 a.1,
)

move_from :
    (olds olds' news : List ConfOutput) (plan : List (Option ℕ))
    → Distinct plan
    → Opened olds news plan
    → All (SameAt olds olds') plan
    → Equipped olds (move_handles news plan olds').0 plan
unfolding move_handles
move_from olds olds' [] [] d o a = tt
move_from olds olds' [] (e ∷ plan) d o a = elim o [ ]
move_from olds olds' (new ∷ news) [] d o a = elim o [ ]
move_from olds olds' (new ∷ news) (none ∷ plan) d o a =
    (o.0, move_from olds olds' news plan d o.1 a.1)
move_from olds olds' (new ∷ news) (some j ∷ plan) d o a = (
  rw (taken, a.0 ∙ o.0.at) (record { reuses = o.0; inherited = o.0.open_handle }),
  move_from olds (released olds' j) news plan d.1 o.1 (SameAt-released olds olds' j plan d.0 a.1),
)

SameAt-refl : (olds : List ConfOutput) (plan : List (Option ℕ)) → All (SameAt olds olds) plan
SameAt-refl olds [] = tt
SameAt-refl olds (none ∷ plan) = (tt, SameAt-refl olds plan)
SameAt-refl olds (some j ∷ plan) = (refl, SameAt-refl olds plan)

pub move_handles-Equipped :
    (olds news : List ConfOutput) (plan : List (Option ℕ))
    → Distinct plan
    → Opened olds news plan
    → Equipped olds (move_handles news plan olds).0 plan
move_handles-Equipped olds news plan d o = move_from olds olds news plan d o (SameAt-refl olds plan)

refused_code : (e : ℤ) → (if is_config e then err_config else err_io) ≢ pos 0
refused_code e h = elim (Bool-cases (is_config e)) [
  | inl t ↦ let h' = rw t at h in cc
  | inr t ↦ let h' = rw t at h in cc
]

module _ (opener : List Call → ConfOutput → ℕ → Opening) where
  pub open_new-Opened :
      (c : Conf) (olds os : List ConfOutput) (plan : List (Option ℕ)) (opened : List ℕ)
      (calls : List Call)
      → Follows olds os plan
      → (open_new opener c os plan opened calls).rc ≡ pos 0
      → Opened olds (open_new opener c os plan opened calls).outputs plan
  unfolding open_new
  open_new-Opened c olds [] [] opened calls f z = tt
  open_new-Opened c olds [] (e ∷ plan) opened calls f z = elim f [ ]
  open_new-Opened c olds (o ∷ os) [] opened calls f z = elim f [ ]
  open_new-Opened c olds (o ∷ os) (some j ∷ plan) opened calls f z =
      (f.0, open_new-Opened c olds os plan opened calls f.1 z)
  open_new-Opened c olds (o ∷ os) (none ∷ plan) opened calls f z =
      elim (Opening-cases (opener calls o (severity c o))) [
        | inl (h, e) ↦
            let z' : (open_new opener c os plan (h ∷ opened) (calls ++ open_call h ∷ [])).rc
                ≡ pos 0 =
              rw (open_new, e) at z in
            rw (open_new, e, z')
              (
                (h, refl),
                open_new-Opened c olds os plan (h ∷ opened) (calls ++ open_call h ∷ []) f z',
              )
        | inr (x, e) ↦ absurd (refused_code x (rw (open_new, e) at z))
      ]

  -- After a reload that succeeds and the move of the handles, every output of the new snapshot has an
  -- open handle: the one that was opened for it, or that of an open old output with its path, which
  -- no other output inherits.
  pub reload-Equipped :
      (f : Features) (new old : Conf) (env old_env : Env) (calls : List Call) (final : Final)
      (plan : List (Option ℕ))
      → finalize_reload opener f new env calls old old_env ≡ (final, plan)
      → final.rc ≡ pos 0
      → Distinct plan
        × Equipped old.outputs (move_handles final.conf.outputs plan old.outputs).0 plan
  unfolding finalize_reload
  reload-Equipped f new old env old_env calls final plan h z =
      elim (Result-cases (validated f new)) [
        | inr (e, v) ↦
            let code = validated-code f new e v in
            let h' = rw (finalize_reload, v) at h in
            let rc : e ≡ pos 0 = ap (λ (x : Final × List (Option ℕ)). x.0.rc) h' ∙ z in cc
        | inl (v, e) ↦
            let h' = rw (finalize_reload, e) at h in
            let p = ap (λ (x : Final × List (Option ℕ)). x.1) h' in
            let rc = ap (λ (x : Final × List (Option ℕ)). x.0.rc) h' ∙ z in
            let outs = ap (λ (x : Final × List (Option ℕ)). x.0.conf.outputs) h' in
            let d =
              reuse_plan-Distinct old.outputs v.outputs (validated-IsChecked f new v e).paths in
            let o =
              open_new-Opened v old.outputs v.outputs (reuse_plan old.outputs v.outputs) [] calls
                (reuse_plan-Follows old.outputs v.outputs) rc in
            (
              subst Distinct p d,
              subst (λ q. Equipped old.outputs (move_handles final.conf.outputs q old.outputs).0 q)
                  p
                  (subst
                    (λ os.
                      Equipped old.outputs
                        (move_handles os (reuse_plan old.outputs v.outputs) old.outputs).0
                        (reuse_plan old.outputs v.outputs))
                    outs
                    (move_handles-Equipped old.outputs _ (reuse_plan old.outputs v.outputs) d o)),
            )
      ]
