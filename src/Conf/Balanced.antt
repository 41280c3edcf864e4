-- ===== src/Conf/Balanced.antt =====
-- src/conf/conf_model.c: the handles of a `hpu_conf_finalize` or a reload that fails.
use mathlib.Core.Path.{subst}
use hpulogc.Prelude.{
  ℕ, ◌⊎◌, ◌+◌, ◌≡◌, ◌≢◌, refl, ap, ◌∙◌, inl, inr, arith, Bool, Bool-cases, not, ◌&&◌, if◌then◌else◌,
  List, [], ◌∷◌, ◌++◌, map, Option, none, some, Option-cases, pos,
}
use hpulogc.Conf.Result.{Result-cases}
use hpulogc.Conf.Model.{ConfOutput, Conf}
use hpulogc.Conf.Finalize.{Features, validated}
use hpulogc.Conf.Open.{
  Call, open_call, close_call, Opening, Opening-cases, severity, is_config, open_outputs,
  open_or_close, Env, Final, finalize,
}
use hpulogc.Conf.Reload.{same_int, reuse_plan, open_new, finalize_reload}
use hpulogc.Conf.Validated.{validated-IsChecked}
use hpulogc.Conf.Handles.{
  opened, closed, held_by, held, opened-append, closed-append, close_outputs-held, count,
  closed-stack, not_kept, FailsBalanced, int_cases,
}

module _ (opener : List Call → ConfOutput → ℕ → Opening) where
  -- Opening closes nothing, and the outputs hold what it opens.
  open_outputs-held :
      (h : ℕ) (c : Conf) (os : List ConfOutput) (calls : List Call)
      → (closed h (open_outputs opener c os calls).calls ≡ closed h calls)
        × (opened h (open_outputs opener c os calls).calls + held h os
            ≡ opened h calls + held h (open_outputs opener c os calls).outputs)
  unfolding open_outputs
  open_outputs-held h c [] calls = (refl, refl)
  open_outputs-held h c (o ∷ os) calls = elim (Option-cases o.handle) [
    | inr (k, e) ↦
        let (a, b) = open_outputs-held h c os calls in
        rw (open_outputs, e) (a, omega (arith, b, ap (held_by h) e))
    | inl n ↦ elim (Opening-cases (opener calls o (severity c o))) [
      | inl (k, e) ↦
          let (a, b) = open_outputs-held h c os (calls ++ open_call k ∷ []) in
          rw (open_outputs, n, e)
            (
              omega (arith, a, closed-append h calls (open_call k ∷ [])),
              omega (arith, b, opened-append h calls (open_call k ∷ [])),
            )
      | inr (x, e) ↦ elim (Bool-cases (is_config x && not c.strict_init)) [
        | inl t ↦
            let (a, b) = open_outputs-held h c os calls in
            rw (open_outputs, n, e, t) (a, omega (arith, b, ap (held_by h) n))
        | inr t ↦ rw (open_outputs, n, e, t) (refl, omega (arith, ap (held_by h) n))
      ]
    ]
  ]

  -- Where nothing is held at the start, a failed opening closes whatever it opened.
  open_or_close-balanced :
      (h : ℕ) (c : Conf) (calls : List Call)
      → held h c.outputs ≡ 0
      → (open_or_close opener c calls).rc ≢ pos 0
      → (opened h (open_or_close opener c calls).calls + closed h calls
          ≡ closed h (open_or_close opener c calls).calls + opened h calls)
        × (held h (open_or_close opener c calls).outputs ≡ 0)
  unfolding open_or_close
  open_or_close-balanced h c calls none_held fails =
      let r = open_outputs opener c c.outputs calls in
      let (a, b) = open_outputs-held h c c.outputs calls in
      let (x, y, z) = close_outputs-held h r.outputs r.calls in
      elim (int_cases r.rc) [
        | inl e ↦ absurd (fails (rw (open_or_close, e) refl))
        | inr (inl (n, e)) ↦ rw (open_or_close, e) (omega (arith, a, b, x, y, none_held), z)
        | inr (inr (n, e)) ↦ rw (open_or_close, e) (omega (arith, a, b, x, y, none_held), z)
      ]

  finalize-balanced :
      (f : Features) (dry_run : Bool) (now_ns pid : ℕ) (c : Conf) (env : Env) (h : ℕ)
      → held h c.outputs ≡ 0
      → (finalize opener f dry_run now_ns pid c env []).rc ≢ pos 0
      → (opened h (finalize opener f dry_run now_ns pid c env []).calls
          ≡ closed h (finalize opener f dry_run now_ns pid c env []).calls)
        × (held h (finalize opener f dry_run now_ns pid c env []).conf.outputs ≡ 0)
  unfolding finalize
  finalize-balanced f dry_run now_ns pid c env h none_held = elim (Result-cases (validated f c)) [
    | inr (e, v) ↦ rw (finalize, v) (λ fails. (refl, none_held))
    | inl (v, e) ↦
        let start : held h v.outputs ≡ 0 =
          ap (held h) (validated-IsChecked f c v e).outputs_kept ∙ none_held in
        elim (Bool-cases dry_run) [
          | inl d ↦ rw (finalize, e, d) (λ fails. (refl, start))
          | inr d ↦
              rw (finalize, e, d)
                (λ fails.
                  let (b, z) = open_or_close-balanced h v [] start fails in (omega (arith, b), z))
        ]
  ]

  -- A reload closes what it opened, the handles of `stack` included, and no output gets a handle.
  open_new-balanced :
      (h : ℕ) (c : Conf) (os : List ConfOutput) (plan : List (Option ℕ)) (stack : List ℕ)
      (calls : List Call)
      → held h os ≡ 0
      → (open_new opener c os plan stack calls).rc ≢ pos 0
      → (closed h (open_new opener c os plan stack calls).calls + opened h calls
          ≡ closed h calls + opened h (open_new opener c os plan stack calls).calls + count h stack)
        × (held h (open_new opener c os plan stack calls).outputs ≡ 0)
  unfolding open_new
  open_new-balanced h c [] plan stack calls n = λ fails. absurd (fails refl)
  open_new-balanced h c (o ∷ os) [] stack calls n = λ fails. absurd (fails refl)
  open_new-balanced h c (o ∷ os) (some j ∷ plan) stack calls n = λ fails.
      let (a, b) = open_new-balanced h c os plan stack calls (omega (arith, n)) fails in
      (a, omega (arith, b, n))
  open_new-balanced h c (o ∷ os) (none ∷ plan) stack calls n =
      elim (Opening-cases (opener calls o (severity c o))) [
        | inl (k, e) ↦
            rw (open_new, e)
              (λ fails.
                let r = open_new opener c os plan (k ∷ stack) (calls ++ open_call k ∷ []) in
                let (a, b) =
                  open_new-balanced h c os plan (k ∷ stack) (calls ++ open_call k ∷ [])
                    (omega (arith, n)) fails in
                let lost : held_by h (if same_int r.rc (pos 0) then some k else none) ≡ 0 =
                  not_kept h k r.rc fails in
                (
                  omega (
                    arith,
                    a,
                    closed-append h calls (open_call k ∷ []),
                    opened-append h calls (open_call k ∷ []),
                  ),
                  omega (arith, b, lost),
                ))
        | inr (x, e) ↦
            rw (open_new, e)
              (λ fails. (
                omega (
                  arith,
                  closed-append h calls (map close_call stack),
                  opened-append h calls (map close_call stack),
                  closed-stack h stack,
                ),
                omega (arith, n),
              ))
      ]

  reload-balanced :
      (f : Features) (new old : Conf) (env old_env : Env) (h : ℕ)
      → held h new.outputs ≡ 0
      → (finalize_reload opener f new env [] old old_env).0.rc ≢ pos 0
      → (opened h (finalize_reload opener f new env [] old old_env).0.calls
          ≡ closed h (finalize_reload opener f new env [] old old_env).0.calls)
        × (held h (finalize_reload opener f new env [] old old_env).0.conf.outputs ≡ 0)
  unfolding finalize_reload
  reload-balanced f new old env old_env h none_held = elim (Result-cases (validated f new)) [
    | inr (e, v) ↦ rw (finalize_reload, v) (λ fails. (refl, none_held))
    | inl (v, e) ↦
        let start : held h v.outputs ≡ 0 =
          ap (held h) (validated-IsChecked f new v e).outputs_kept ∙ none_held in
        rw (finalize_reload, e)
          (λ fails.
            let (a, b) =
              open_new-balanced h v v.outputs (reuse_plan old.outputs v.outputs) [] [] start
                fails in
            (omega (arith, a), b))
  ]

  -- A finalization or a reload that fails, of a snapshot without handles, has closed every handle as
  -- often as it opened it, and leaves none in the snapshot.
  pub failed-balanced :
      (f : Features) (dry_run : Bool) (now_ns pid : ℕ) (c old : Conf) (env old_env : Env)
      (final : Final) (h : ℕ)
      → held h c.outputs ≡ 0
      → (finalize opener f dry_run now_ns pid c env [] ≡ final)
        ⊎ ((finalize_reload opener f c env [] old old_env).0 ≡ final)
      → final.rc ≢ pos 0
      → (opened h final.calls ≡ closed h final.calls) × (held h final.conf.outputs ≡ 0)
  failed-balanced f dry_run now_ns pid c old env old_env final h none_held (inl e) =
      subst (FailsBalanced h) e (finalize-balanced f dry_run now_ns pid c env h none_held)
  failed-balanced f dry_run now_ns pid c old env old_env final h none_held (inr e) =
      subst (FailsBalanced h) e (reload-balanced f c old env old_env h none_held)
