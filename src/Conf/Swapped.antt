-- ===== src/Conf/Swapped.antt =====
-- src/core/hotreload.c: a reload takes the new configuration as a whole, or leaves the old one.
use mathlib.Core.Path.{subst}
use mathlib.Core.Option.{some-injective}
use hpulogc.Prelude.{
  ℕ, ◌+◌, ◌%◌, ◌^◌, ◌≡◌, ◌⊎◌, inl, inr, refl, sym, ap, ◌∙◌, ◌==◌, Bool, false, Bool-cases, not,
  ◌||◌, List, [], Option, some, Option-cases, Bytes, length, pos, negsuc,
}
use hpulogc.Conf.Result.{ok, Result-cases}
use hpulogc.Conf.Model.{ConfOutput, Conf, conf_defaults}
use hpulogc.Conf.File.{Uses, load_file}
use hpulogc.Conf.Finalize.{Features}
use hpulogc.Conf.Open.{Call, Opening, Final, close_outputs, derived_env}
use hpulogc.Conf.Reload.{finalize_reload, move_handles}
use hpulogc.Conf.Planned.{Distinct}
use hpulogc.Conf.Taken.{Takes, reload-Takes}
use hpulogc.Conf.Moved.{Equipped, reload-Equipped}
use hpulogc.Conf.Handles.{int_cases}
use hpulogc.Conf.Trigger.{
  Runtime, SlotLook, try_enter, Reloaded, rejected, swapped, zero_env, swap_or_free, reload_under,
  trigger_reload,
}

-- The reload reported an error, and the instance is as it was.
abbrev pub Rejects : Runtime → Reloaded → Type 0
Rejects rt out = (out.rc ≡ negsuc 0) × (out.runtime ≡ rt)

-- The reload succeeded: what the file at the source's path loads as stands, resolved and with the handles,
-- in the place of the old snapshot; every output has a handle, none of them twice; the copies for the
-- calls and for the templates agree with it, and the generation is the next one.
pub record Swaps (uses : Uses) (regular : Bytes → Bool) (fopen : Bytes → Option Bytes)
    (rt : Runtime) (out : Reloaded) : Type 0 where
  pub old : Conf
  pub loaded : Conf
  pub new : Conf
  pub plan : List (Option ℕ)
  pub rc_ok : out.rc ≡ pos 0
  pub was : rt.conf ≡ some old
  pub from_file :
      load_file uses regular fopen conf_defaults rt.source_path (some old.strict_init)
      ≡ some (ok loaded)
  pub takes : Takes loaded new
  pub is_now : out.runtime.conf ≡ some new
  pub distinct : Distinct plan
  pub equipped : Equipped old.outputs new.outputs plan
  pub next_gen : out.runtime.conf_gen ≡ (rt.conf_gen + 1) % 2 ^ 32
  pub env_derived : out.runtime.env ≡ derived_env new rt.env.mono_base_us rt.env.pid
  pub level_copied : out.runtime.level_atomic ≡ new.level
  pub source_copied : out.runtime.ts_source ≡ new.timestamp_source
  pub escape_copied : out.runtime.escape_injection ≡ new.escape_injection
  pub length_copied : out.runtime.max_log_len_atomic ≡ new.max_log_length
  pub slot_free : out.runtime.reload_busy ≡ false
  pub still_runs : out.runtime.running ≡ rt.running
  pub source_kept : out.runtime.source_path ≡ rt.source_path

rejected-Rejects :
    (rt : Runtime) (calls : List Call) → rt.reload_busy ≡ false → Rejects rt (rejected rt calls)
rejected-Rejects rt calls f = (refl, ap (λ b. record rt { reload_busy = b }) (sym f))

unchanged_by :
    {rt : Runtime} (out : Reloaded)
    → some (record { runtime = rt; calls = []; rc = negsuc 0 }) ≡ some out
    → Rejects rt out
unchanged_by {rt} out h = subst (Rejects rt) (some-injective _ _ h) (refl, refl)

module _ (uses : Uses) (features : Features) (regular : Bytes → Bool) (fopen : Bytes → Option Bytes)
    (opener : List Call → ConfOutput → ℕ → Opening) (lost : ℕ → ℕ) (install : Bool) where
  swap_or_free-cases :
      (rt : Runtime) (old fresh : Conf) (final : Final) (plan : List (Option ℕ))
      → rt.reload_busy ≡ false
      → rt.conf ≡ some old
      → load_file uses regular fopen conf_defaults rt.source_path (some old.strict_init)
        ≡ some (ok fresh)
      → finalize_reload opener features fresh
          (zero_env uses features regular fopen opener lost install)
          []
          old
          rt.env
        ≡ (final, plan)
      → Rejects rt
          (swap_or_free uses features regular fopen opener lost install rt old (final, plan))
        ⊎ Swaps uses regular fopen rt
            (swap_or_free uses features regular fopen opener lost install rt old (final, plan))
  unfolding swapped
  swap_or_free-cases rt old fresh final plan f was l e = elim (int_cases final.rc) [
    | inl z ↦
        let (d, q) = reload-Equipped opener features fresh old _ rt.env [] final plan e z in
        let (t, v) = reload-Takes opener features fresh old _ rt.env [] final plan e z in
        rw z (
          inr (record {
            old = old;
            loaded = fresh;
            from_file = l;
            takes = t;
            env_derived = v;
            still_runs = refl;
            source_kept = refl;
            new = record final.conf {
              outputs = (move_handles final.conf.outputs plan old.outputs).0;
            };
            plan = plan;
            rc_ok = refl;
            was = was;
            is_now = refl;
            distinct = d;
            equipped = q;
            next_gen = refl;
            level_copied = refl;
            source_copied = refl;
            escape_copied = refl;
            length_copied = refl;
            slot_free = refl;
          }))
    | inr (inl (n, z)) ↦
        rw z (inl (rejected-Rejects rt (close_outputs final.conf.outputs final.calls).1 f))
    | inr (inr (n, z)) ↦
        rw z (inl (rejected-Rejects rt (close_outputs final.conf.outputs final.calls).1 f))
  ]

  reload_under-cases :
      (rt : Runtime) (old : Conf) (out : Reloaded)
      → rt.reload_busy ≡ false
      → rt.conf ≡ some old
      → reload_under uses features regular fopen opener lost install rt old ≡ some out
      → Rejects rt out ⊎ Swaps uses regular fopen rt out
  unfolding reload_under
  reload_under-cases rt old out f was h =
      elim (Option-cases
        (load_file uses regular fopen conf_defaults rt.source_path (some old.strict_init))) [
          | inl e ↦ let h' = rw (reload_under, e) at h in cc
          | inr (loaded, e) ↦ elim (Result-cases loaded) [
            | inr (x, l) ↦
                let h' = rw (reload_under, e, l) at h in
                inl (subst (Rejects rt) (some-injective _ _ h') (rejected-Rejects rt [] f))
            | inl (fresh, l) ↦
                let h' = rw (reload_under, e, l) at h in
                subst (λ o. Rejects rt o ⊎ Swaps uses regular fopen rt o) (some-injective _ _ h')
                  (swap_or_free-cases rt old fresh
                    (finalize_reload opener features fresh
                      (zero_env uses features regular fopen opener lost install) [] old rt.env).0
                    (finalize_reload opener features fresh
                      (zero_env uses features regular fopen opener lost install) [] old rt.env).1
                    f was (e ∙ ap some l) refl)
          ]
        ]

  -- A reload of an instance with a free slot either reports an error and leaves the instance as it was,
  -- or puts a new snapshot in the place of the old one: it is what the file at the source's path loads as
  -- on top of the defaults, with the indices of the default outputs resolved and in every other part as
  -- loaded, but for the handles of the outputs. Every output has a handle, no handle of the old one is
  -- inherited twice, the copies for the calls and for the templates agree with it, and the generation is
  -- the next one.
  pub trigger_reload-Swaps :
      (rt : Runtime) (begun_ms : ℕ) (looks : List SlotLook) (still_running : Bool) (out : Reloaded)
      → rt.reload_busy ≡ false
      → trigger_reload uses features regular fopen opener lost install rt begun_ms looks
          still_running
        ≡ some out
      → Rejects rt out ⊎ Swaps uses regular fopen rt out
  unfolding trigger_reload
  trigger_reload-Swaps rt begun_ms looks still_running out f h =
      elim (Bool-cases (not rt.running || (length rt.source_path == 0))) [
        | inl e ↦ let h' = rw (trigger_reload, e) at h in inl (unchanged_by out h')
        | inr e ↦ elim (Option-cases (try_enter (begun_ms + 5000) looks)) [
          | inl t ↦ let h' = rw (trigger_reload, e, t) at h in cc
          | inr (entered, t) ↦ elim (Bool-cases entered) [
            | inr n ↦ let h' = rw (trigger_reload, e, t, n) at h in inl (unchanged_by out h')
            | inl y ↦ elim (Bool-cases still_running) [
              | inr n ↦
                  let h' = rw (trigger_reload, e, t, y, n) at h in
                  inl (subst (Rejects rt) (some-injective _ _ h') (rejected-Rejects rt [] f))
              | inl r ↦ elim (Option-cases rt.conf) [
                | inl n ↦
                    let h' = rw (trigger_reload, e, t, y, r, n) at h in
                    inl (subst (Rejects rt) (some-injective _ _ h') (rejected-Rejects rt [] f))
                | inr (old, was) ↦
                    reload_under-cases rt old out f was (rw (trigger_reload, e, t, y, r, was) at h)
              ]
            ]
          ]
        ]
      ]
