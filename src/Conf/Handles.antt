-- ===== src/Conf/Handles.antt =====
-- src/conf/conf_model.c: the handles that calls open and close, counted.
use hpulogc.Prelude.{
  ℕ, ◌⊎◌, zero, suc, ◌+◌, ◌≡◌, ◌≢◌, ◌==◌, refl, ap, inl, inr, arith, Bool, if◌then◌else◌, List, [],
  ◌∷◌, ◌++◌, map, Option, none, some, Option-cases, ℤ, pos, negsuc,
}
use hpulogc.Conf.Model.{ConfOutput}
use hpulogc.Conf.Open.{Call, open_call, close_call, close_outputs, Final}
use hpulogc.Conf.Reload.{same_int}

abbrev one_if : Bool → ℕ
one_if t = if t then 1 else 0

-- How often a handle was opened, and how often closed.
abbrev pub opened : ℕ → List Call → ℕ
opened h [] = 0
opened h (open_call k ∷ cs) = one_if (k == h) + opened h cs
opened h (close_call k ∷ cs) = opened h cs

abbrev pub closed : ℕ → List Call → ℕ
closed h [] = 0
closed h (open_call k ∷ cs) = closed h cs
closed h (close_call k ∷ cs) = one_if (k == h) + closed h cs

-- How many outputs have the handle.
abbrev pub held_by : ℕ → Option ℕ → ℕ
held_by h none = 0
held_by h (some k) = one_if (k == h)

abbrev pub held : ℕ → List ConfOutput → ℕ
held h [] = 0
held h (o ∷ os) = held_by h o.handle + held h os

pub opened-append : (h : ℕ) (a b : List Call) → opened h (a ++ b) ≡ opened h a + opened h b
opened-append h [] b = omega arith
opened-append h (open_call k ∷ a) b = omega (arith, opened-append h a b)
opened-append h (close_call k ∷ a) b = opened-append h a b

pub closed-append : (h : ℕ) (a b : List Call) → closed h (a ++ b) ≡ closed h a + closed h b
closed-append h [] b = omega arith
closed-append h (open_call k ∷ a) b = closed-append h a b
closed-append h (close_call k ∷ a) b = omega (arith, closed-append h a b)

-- Closing closes what the outputs hold, and they hold nothing after it.
pub close_outputs-held :
    (h : ℕ) (os : List ConfOutput) (calls : List Call)
    → (opened h (close_outputs os calls).1 ≡ opened h calls)
      × (closed h (close_outputs os calls).1 ≡ closed h calls + held h os)
      × (held h (close_outputs os calls).0 ≡ 0)
unfolding close_outputs
close_outputs-held h [] calls = (refl, omega arith, refl)
close_outputs-held h (o ∷ os) calls = elim (Option-cases o.handle) [
  | inl e ↦
      let (a, b, c) = close_outputs-held h os calls in
      rw (close_outputs, e) (a, omega (arith, b), omega (arith, c, ap (held_by h) e))
  | inr (k, e) ↦
      let (a, b, c) = close_outputs-held h os (calls ++ close_call k ∷ []) in
      rw (close_outputs, e)
        (
          omega (arith, a, opened-append h calls (close_call k ∷ [])),
          omega (arith, b, closed-append h calls (close_call k ∷ [])),
          omega (arith, c),
        )
]

abbrev pub count : ℕ → List ℕ → ℕ
count h [] = 0
count h (k ∷ ks) = one_if (k == h) + count h ks

pub closed-stack :
    (h : ℕ) (ks : List ℕ)
    → (closed h (map close_call ks) ≡ count h ks) × (opened h (map close_call ks) ≡ 0)
closed-stack h [] = (refl, refl)
closed-stack h (k ∷ ks) = let (a, b) = closed-stack h ks in (omega (arith, a), b)

pub not_kept :
    (h k : ℕ) (rc : ℤ) → rc ≢ pos 0 → held_by h (if same_int rc (pos 0) then some k else none) ≡ 0
not_kept h k (pos zero) fails = absurd (fails refl)
not_kept h k (pos (suc n)) fails = ground arith
not_kept h k (negsuc n) fails = refl

abbrev pub FailsBalanced : ℕ → Final → Type 0
FailsBalanced h x =
    x.rc ≢ pos 0 → (opened h x.calls ≡ closed h x.calls) × (held h x.conf.outputs ≡ 0)

pub int_cases : (i : ℤ) → (i ≡ pos 0) ⊎ ((n : ℕ) × (i ≡ pos (suc n))) ⊎ ((n : ℕ) × (i ≡ negsuc n))
int_cases (pos zero) = inl refl
int_cases (pos (suc n)) = inr (inl (n, refl))
int_cases (negsuc n) = inr (inr (n, refl))
