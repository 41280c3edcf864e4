-- ===== src/Conf/Result.antt =====
-- Results of fallible calls: a value, or the negative code that the C function returns.
use mathlib.Core.Path.{subst}
use hpulogc.Prelude.{
  ◌≡◌, ◌⊎◌, inl, inr, refl, if◌then◌else◌, Bool, true, false, Option, none, some, ℤ, negsuc,
}

-- `HPULOGC_ERR_INVALID_ARG` and `HPULOGC_ERR_CONFIG`
abbrev pub err_invalid_arg : ℤ
err_invalid_arg = negsuc 0

abbrev pub err_config : ℤ
err_config = negsuc 3

pub data Result {ℓ} (A : Type ℓ) : Type ℓ where
  err : (code : ℤ) → Result A
  ok : (value : A) → Result A

infixl 5 ◌>>=◌ ◌>>◌
-- `if (rc != 0) return rc;`
abbrev pub ◌>>=◌ {ℓ κ} :
    {A : Type ℓ} {B : Type κ} (first : Result A) (next : A → Result B) → Result B
err code >>= next = err code
ok value >>= next = next value

-- The same behind a test, which gives no value.
abbrev pub ◌>>◌ {ℓ} : {B : Type ℓ} (test : Result (Unit {0})) (rest : Result B) → Result B
test >> rest = test >>= λ done. rest

-- `if (bad) return e;`
abbrev pub guard : (good : Bool) (code : ℤ) → Result (Unit {0})
guard false code = err code
guard true code = ok tt

abbrev pub or_fail {ℓ} : {A : Type ℓ} → Option A → ℤ → Result A
or_fail none e = err e
or_fail (some a) e = ok a

-- If there is a value, the predicate holds of it.
pub data Ensures {A : Type 0} (P : A → Type 0) : Result A → Type 0 where
  ensured : (a : A) → P a → Ensures P (ok a)
  failing : (e : ℤ) → Ensures P (err e)

module _ {A B : Type 0} {Q : B → Type 0} where
  pub Ensures-bind :
      {P : A → Type 0} {m : Result A} {f : A → Result B}
      → Ensures P m
      → ((a : A) → P a → Ensures Q (f a))
      → Ensures Q (m >>= f)
  Ensures-bind (ensured a p) h = h a p
  Ensures-bind (failing e) h = failing e

  pub Ensures-or_fail :
      (o : Option A) (e : ℤ) {f : A → Result B}
      → ((a : A) → o ≡ some a → Ensures Q (f a))
      → Ensures Q (or_fail o e >>= f)
  Ensures-or_fail none e h = failing e
  Ensures-or_fail (some a) e h = h a refl

module _ {B : Type 0} {Q : B → Type 0} where
  pub Ensures-guard :
      (t : Bool) (e : ℤ) {k : Result B} → (t ≡ true → Ensures Q k) → Ensures Q (guard t e >> k)
  Ensures-guard true e h = h refl
  Ensures-guard false e h = failing e

abbrev IfOk : {A : Type 0} → (A → Type 0) → Result A → Type 0
IfOk P (ok a) = P a
IfOk P (err e) = Unit

Ensures-IfOk : {A : Type 0} {P : A → Type 0} {m : Result A} → Ensures P m → IfOk P m
Ensures-IfOk (ensured a p) = p
Ensures-IfOk (failing e) = tt

pub Ensures-ok : {A : Type 0} {P : A → Type 0} {m : Result A} {a : A} → Ensures P m → m ≡ ok a → P a
Ensures-ok {P = P} h e = subst (IfOk P) e (Ensures-IfOk h)

pub Ensures-if :
    {A : Type 0} {P : A → Type 0} (t : Bool) {m m' : Result A}
    → (t ≡ true → Ensures P m)
    → (t ≡ false → Ensures P m')
    → Ensures P (if t then m else m')
Ensures-if true h h' = h refl
Ensures-if false h h' = h' refl

pub Ensures-any : {A : Type 0} (m : Result A) → Ensures (λ _. Unit {0}) m
Ensures-any (ok a) = ensured a tt
Ensures-any (err e) = failing e

pub Result-cases : {A : Type 0} (m : Result A) → ((a : A) × (m ≡ ok a)) ⊎ ((e : ℤ) × (m ≡ err e))
Result-cases (ok a) = inl (a, refl)
Result-cases (err e) = inr (e, refl)
