-- ===== src/Conf/Taken.antt =====
-- src/conf/conf_model.c (`hpu_conf_finalize_reload`) and the move of the handles of src/core/hotreload.c:
-- what the new snapshot keeps of the configuration that was loaded.
use mathlib.Core.Path.{subst}
use hpulogc.Prelude.{
  inl, inr, ◌≡◌, refl, ap, ◌∙◌, ℕ, List, [], ◌∷◌, ◌++◌, Option, none, some, get_elem?, pos,
}
use hpulogc.Conf.Result.{ok, Result-cases}
use hpulogc.Conf.Model.{ConfOutput, Conf}
use hpulogc.Conf.Finalize.{Features, validated, resolve_default_outputs}
use hpulogc.Conf.Open.{Call, Opening, Opening-cases, open_call, severity, Env, derived_env, Final}
use hpulogc.Conf.Reload.{open_new, finalize_reload, reuse_plan, move_handles, released, taken}
use hpulogc.Conf.Validated.{validated-code, validated-IsChecked}

-- The same outputs in the same order, but for their handles.
pub data SameButHandles : List ConfOutput → List ConfOutput → Type 0 where
  no_more : SameButHandles [] []
  changed :
      {a : ConfOutput} {xs ys : List ConfOutput} (h : Option ℕ)
      → SameButHandles xs ys
      → SameButHandles (a ∷ xs) (record a { handle = h } ∷ ys)

pub SameButHandles-refl : (xs : List ConfOutput) → SameButHandles xs xs
SameButHandles-refl [] = no_more
SameButHandles-refl (a ∷ xs) = changed a.handle (SameButHandles-refl xs)

taken-SameButHandles :
    (olds : List ConfOutput) (j : ℕ) (a : ConfOutput) (h : Option ℕ) (xs ys : List ConfOutput)
    → SameButHandles xs ys
    → SameButHandles (a ∷ xs) (taken olds j (record a { handle = h }) ∷ ys)
taken-SameButHandles olds j a h xs ys s =
    elim (get_elem? olds j)
      as (λ o. SameButHandles (a ∷ xs) (
        elim o [ none ↦ record a { handle = h } | some old ↦ record a { handle = old.handle } ]
        ∷ ys)) [ none ↦ changed h s | some old ↦ changed old.handle s ]

pub move_handles-SameButHandles :
    {xs news : List ConfOutput} (plan : List (Option ℕ)) (olds : List ConfOutput)
    → SameButHandles xs news
    → SameButHandles xs (move_handles news plan olds).0
unfolding move_handles
move_handles-SameButHandles plan olds no_more = no_more
move_handles-SameButHandles [] olds (changed h s) = changed h s
move_handles-SameButHandles (some j ∷ plan) olds (changed {a = a} {xs = xs} h s) =
    taken-SameButHandles olds j a h xs _ (move_handles-SameButHandles plan (released olds j) s)
move_handles-SameButHandles (none ∷ plan) olds (changed h s) =
    changed h (move_handles-SameButHandles plan olds s)

-- The snapshot is the configuration that was loaded, with its default outputs resolved, and the
-- outputs are the same but for their handles.
pub record Takes (loaded new : Conf) : Type 0 where
  pub rest_kept :
      new ≡ record loaded { default_output_idx = new.default_output_idx; outputs = new.outputs }
  pub resolved :
      resolve_default_outputs loaded.outputs loaded.default_output_names ≡ ok new.default_output_idx
  pub outputs_kept : SameButHandles loaded.outputs new.outputs

module _ (opener : List Call → ConfOutput → ℕ → Opening) where
  open_new-SameButHandles :
      (c : Conf) (os : List ConfOutput) (plan : List (Option ℕ)) (opened : List ℕ)
      (calls : List Call)
      → SameButHandles os (open_new opener c os plan opened calls).outputs
  unfolding open_new
  open_new-SameButHandles c [] plan opened calls = no_more
  open_new-SameButHandles c (o ∷ os) [] opened calls = SameButHandles-refl (o ∷ os)
  open_new-SameButHandles c (o ∷ os) (some j ∷ plan) opened calls =
      changed o.handle (open_new-SameButHandles c os plan opened calls)
  open_new-SameButHandles c (o ∷ os) (none ∷ plan) opened calls =
      elim (Opening-cases (opener calls o (severity c o))) [
        | inl (h, e) ↦
            rw (open_new, e)
              (changed _
                (open_new-SameButHandles c os plan (h ∷ opened) (calls ++ open_call h ∷ [])))
        | inr (x, e) ↦ rw (open_new, e) (changed none (SameButHandles-refl os))
      ]

  pub reload-Takes :
      (f : Features) (loaded old : Conf) (env old_env : Env) (calls : List Call) (final : Final)
      (plan : List (Option ℕ))
      → finalize_reload opener f loaded env calls old old_env ≡ (final, plan)
      → final.rc ≡ pos 0
      → let new = record final.conf {
        outputs = (move_handles final.conf.outputs plan old.outputs).0;
      } in
        Takes loaded new × (final.env ≡ derived_env new old_env.mono_base_us old_env.pid)
  unfolding finalize_reload
  reload-Takes f loaded old env old_env calls final plan h z =
      elim (Result-cases (validated f loaded)) [
        | inr (e, v) ↦
            let code = validated-code f loaded e v in
            let h' = rw (finalize_reload, v) at h in
            let rc : e ≡ pos 0 = ap (λ (x : Final × List (Option ℕ)). x.0.rc) h' ∙ z in cc
        | inl (v, e) ↦
            let h' = rw (finalize_reload, e) at h in
            let c = validated-IsChecked f loaded v e in
            let p = reuse_plan old.outputs v.outputs in
            subst
              (λ (x : Final × List (Option ℕ)).
                Takes loaded
                  (record x.0.conf { outputs = (move_handles x.0.conf.outputs x.1 old.outputs).0 })
                × (x.0.env
                    ≡ derived_env
                        (record x.0.conf {
                          outputs = (move_handles x.0.conf.outputs x.1 old.outputs).0;
                        })
                        old_env.mono_base_us old_env.pid))
              h'
              (
                record {
                  rest_kept =
                      ap
                        (λ (w : Conf). record w {
                          outputs =
                              (move_handles (open_new opener v v.outputs p [] calls).outputs p
                                old.outputs).0;
                        })
                        c.rest_kept;
                  resolved = c.resolved;
                  outputs_kept = move_handles-SameButHandles p old.outputs (
                      subst
                        (λ os. SameButHandles os (open_new opener v v.outputs p [] calls).outputs)
                        c.outputs_kept (open_new-SameButHandles v v.outputs p [] calls));
                },
                refl,
              )
      ]
