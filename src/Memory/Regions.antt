-- ===== src/Memory/Regions.antt =====
-- Which bytes stand where, before and after a store.
use native.Mathlib.Nat.{mod-lt, div-add-mod, mul-le-mul_left, mod-eq_of_lt, mul-mod_right}
use native.Mathlib.Decide.{dec_lt}
use hpulogc.Prelude.{
  ℕ, zero, suc, ap, ◌∙◌, ◌+◌, ◌-◌, ◌*◌, ◌/◌, ◌%◌, ◌≤◌, ◌<◌, ◌≡◌, refl, ap₂, ◌⊎◌, inl, inr, [], ◌∷◌,
  ◌++◌, arith, length, get_or, Bytes,
}
use hpulogc.Memory.{Mem, store, load}

-- The bytes `bs` stand at `pos`.
abbrev pub Holds : Mem → ℕ → Bytes → Type 0
Holds m pos [] = Unit
Holds m pos (b ∷ bs) = (m pos ≡ b) × Holds m (pos + 1) bs

pub load-Holds : (m : Mem) (pos : ℕ) (bs : Bytes) → Holds m pos bs → load m pos (length bs) ≡ bs
unfolding load
load-Holds m pos [] h = refl
load-Holds m pos (b ∷ bs) h = ap₂ ◌∷◌ h.0 (load-Holds m (pos + 1) bs h.1)

-- Two memories that agree on a region, the second one shifted.
pub Holds-move :
    (m k : Mem) (p q : ℕ) (bs : Bytes)
    → ((i : ℕ) → i < length bs → k (q + i) ≡ m (p + i))
    → Holds m p bs
    → Holds k q bs
Holds-move m k p q [] agree h = tt
Holds-move m k p q (b ∷ bs) agree h = (
  ground (arith, agree 0, shift q, shift p),
  Holds-move m k (p + 1) (q + 1) bs (λ i l. ground (arith, agree (i + 1), next q i, next p i)) h.1,
)
  where
    shift : (a : ℕ) → a + 0 ≡ a
    shift a = omega arith

    next : (a i : ℕ) → a + 1 + i ≡ a + (i + 1)
    next a i = omega arith

pub Holds-append_left :
    (m : Mem) (pos : ℕ) (xs ys : Bytes) → Holds m pos (xs ++ ys) → Holds m pos xs
Holds-append_left m pos [] ys h = tt
Holds-append_left m pos (x ∷ xs) ys h = (h.0, Holds-append_left m (pos + 1) xs ys h.1)

pub Holds-append_right :
    (m : Mem) (pos : ℕ) (xs ys : Bytes) → Holds m pos (xs ++ ys) → Holds m (pos + length xs) ys
Holds-append_right m pos [] ys h = let e : pos + 0 ≡ pos = omega arith in rw e h
Holds-append_right m pos (x ∷ xs) ys h =
    let e : pos + suc (length xs) ≡ pos + 1 + length xs = omega arith in
    rw e (Holds-append_right m (pos + 1) xs ys h.1)

get_or-Holds :
    (m : Mem) (p : ℕ) (bs : Bytes)
    → ((i : ℕ) → i < length bs → m (p + i) ≡ get_or bs i 0)
    → Holds m p bs
get_or-Holds m p [] h = tt
get_or-Holds m p (b ∷ bs) h = (
  ground (arith, h 0, zero_shift),
  get_or-Holds m (p + 1) bs (λ i l. ground (arith, h (suc i), next i)),
)
  where
    zero_shift : p + 0 ≡ p
    zero_shift = omega arith

    next : (i : ℕ) → p + 1 + i ≡ p + suc i
    next i = omega arith

pub Holds-store : (m : Mem) (pos : ℕ) (bs : Bytes) → Holds (store m pos bs) pos bs
unfolding store
Holds-store m pos bs =
    get_or-Holds (store m pos bs) pos bs
      (λ i l. let e : pos + i - pos ≡ i = omega arith in ground (arith, e))

-- A store leaves the addresses outside it.
pub store_other :
    (m : Mem) (pos : ℕ) (bs : Bytes) (a : ℕ)
    → (a < pos) ⊎ (pos + length bs ≤ a)
    → store m pos bs a ≡ m a
unfolding store
store_other m pos bs a h = ground arith

pub Holds-store_other :
    (m : Mem) (pos : ℕ) (bs : Bytes) (q : ℕ) (xs : Bytes)
    → (q + length xs ≤ pos) ⊎ (pos + length bs ≤ q)
    → Holds m q xs
    → Holds (store m pos bs) q xs
Holds-store_other m pos bs q xs apart =
    Holds-move m (store m pos bs) q q xs (λ i l. store_other m pos bs (q + i) (omega arith))

-- Two pieces of a circular buffer, each whole below the end, that are apart as positions and
-- less than a lap away are apart as addresses.
pub apart-mod :
    (cap p s t n : ℕ)
    → 0 < cap
    → p + s ≤ t
    → t + n ≤ p + cap
    → p % cap + s ≤ cap
    → t % cap + n ≤ cap
    → (p % cap + s ≤ t % cap) ⊎ (t % cap + n ≤ p % cap)
apart-mod cap p s t n c h k ps tn = elim (dec_lt (p / cap) (t / cap)) [
  | no same_lap ↦ inl (
      omega (
        arith,
        div-add-mod p cap,
        div-add-mod t cap,
        mul-le-mul_left {m = t / cap} {n = p / cap} cap (omega arith),
      ))
  | yes next_lap ↦ inr (
      omega (
        arith,
        div-add-mod p cap,
        div-add-mod t cap,
        mul-le-mul_left {m = p / cap + 1} {n = t / cap} cap (omega arith),
      ))
]

-- Inside a piece that is whole below the end, positions and addresses run in step.
pub mod-add_inside : (cap p i : ℕ) → p % cap + i < cap → (p + i) % cap ≡ p % cap + i
mod-add_inside cap p i h = grind (arith, mod-lt, mod-eq_of_lt)

-- A piece that ends at the end of the buffer brings the tail to its start.
pub lap-mod : (cap t n : ℕ) → t % cap + n ≡ cap → (t + n) % cap ≡ 0
lap-mod cap t n e =
    let e' : t + n ≡ cap * (t / cap + 1) = omega (arith, div-add-mod t cap) in
    rw e' (mul-mod_right cap (t / cap + 1))

pub load-append : (m : Mem) (p a b : ℕ) → load m p (a + b) ≡ load m p a ++ load m (p + a) b
unfolding load
load-append m p zero b =
    let e : 0 + b ≡ b = omega arith in let f : p + 0 ≡ p = omega arith in rw (e, f)
load-append m p (suc a) b =
    let e : suc a + b ≡ suc (a + b) = omega arith in
    let f : p + suc a ≡ p + 1 + a = omega arith in
    rw (e, f) (ap (◌∷◌ (m p)) (load-append m (p + 1) a b))

get_or-load : (m : Mem) (p n i : ℕ) → i < n → get_or (load m p n) i 0 ≡ m (p + i)
unfolding load
get_or-load m p zero i h = elim h [ ]
get_or-load m p (suc n) zero h = ap m (omega arith)
get_or-load m p (suc n) (suc i) h = get_or-load m (p + 1) n i (omega arith) ∙ ap m (omega arith)

pub length-load : (m : Mem) (p n : ℕ) → length (load m p n) ≡ n
unfolding load
length-load m p zero = refl
length-load m p (suc n) = ap suc (length-load m (p + 1) n)

-- What a copy of `n` bytes holds of the `n` bytes.
pub Holds-copy :
    (m k : Mem) (p q n : ℕ) (bs : Bytes)
    → length bs ≤ n
    → Holds m p bs
    → Holds (store k q (load m p n)) q bs
unfolding store
Holds-copy m k p q n bs fits = Holds-move m (store k q (load m p n)) p q bs (λ i l.
    let e : q + i - q ≡ i = omega arith in
    ground (arith, length-load m p n, get_or-load m p n i, e))
