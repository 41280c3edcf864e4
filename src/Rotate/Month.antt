-- ===== src/Rotate/Month.antt =====
-- src/output/rotate.c: `hpu_rotate_next_boundary` by the month.
use hpulogc.Prelude.{
  ℕ, refl, ap, sym, ◌∙◌, if◌then◌else◌, ltb→lt, ltb→le, ◌+◌, ◌-◌, ◌*◌, ◌/◌, ◌%◌, ◌≤◌, ◌<◌, ◌≡◌, inl,
  inr, ◌⊎◌, true, false, Bool-cases, arith, leb, ltb,
}
use hpulogc.Rotate.Boundary.{month, civil_from_days, days_from_civil, next_month, next_boundary}
use hpulogc.Rotate.Civil.{
  yoe_bounds, month_bounds, march_day, days_from_civil-late, days_from_civil-early,
}
use hpulogc.Rotate.MarchDate.{year_end, march_date, days_before, civil_from_days-march_day}

-- The first of March of the year that follows.
next_march :
    (era yoe : ℕ)
    → yoe < 400
    → ((yoe < 399) × (days_from_civil (yoe + era * 400 + 1) 3 1 ≡ march_day era (yoe + 1) 0 1))
      ⊎ ((yoe ≡ 399) × (days_from_civil (yoe + era * 400 + 1) 3 1 ≡ march_day (era + 1) 0 0 1))
next_march era yoe h = elim (Bool-cases (ltb yoe 399)) [
  | inl less ↦
      let e : yoe + era * 400 + 1 ≡ yoe + 1 + era * 400 = omega arith in
      inl (ground arith, rw e (days_from_civil-late era (yoe + 1) 0 1 (ground arith) (omega arith)))
  | inr last ↦
      let k : yoe ≡ 399 = ground arith in
      let e : yoe + era * 400 + 1 ≡ 0 + (era + 1) * 400 = omega (arith, k) in
      inr (k, rw e (days_from_civil-late (era + 1) 0 0 1 (omega arith) (omega arith)))
]

abbrev Soon : ℕ → ℕ → Type 0
Soon z b = (z < b) × (b ≤ z + 31)

-- The first of the month behind a date.
abbrev pub next_first : ℕ × ℕ × ℕ → ℕ × ℕ × ℕ
next_first (y, m, d) = if ltb 12 (m + 1) then (y + 1, 1, 1) else (y, m + 1, 1)

-- The day that `next_month` gives for the date of a day.
record Begins (z : ℕ) (date : ℕ × ℕ × ℕ) : Type 0 where
  era : ℕ
  yoe : ℕ
  mp : ℕ
  yoe_max : yoe < 400
  mp_max : mp < 12
  is_day : next_month date ≡ march_day era yoe mp 1
  is_first : next_first date ≡ march_date era yoe mp
  soon : Soon z (march_day era yoe mp 1)

begins :
    {z : ℕ} {date : ℕ × ℕ × ℕ} (era yoe mp : ℕ)
    → yoe < 400
    → mp < 12
    → next_month date ≡ march_day era yoe mp 1
    → next_first date ≡ march_date era yoe mp
    → Soon z (march_day era yoe mp 1)
    → Begins z date
begins era yoe mp ym mm d f s = record {
  era = era;
  yoe = yoe;
  mp = mp;
  yoe_max = ym;
  mp_max = mm;
  is_day = d;
  is_first = f;
  soon = s;
}

-- A day of the month `mp` of the year `yoe` of the era, both counted from March.
module _ (z era yoe mp doy dd : ℕ) (is : z + 719468 ≡ era * 146097 + (days_before yoe + doy))
    (yb : yoe < 400) (ml : (153 * mp + 2) / 5 ≤ doy) (mu : doy < (153 * (mp + 1) + 2) / 5) where
  late-Begins : mp < 10 → Begins z (yoe + era * 400, mp + 3, dd)
  late-Begins late = elim (Bool-cases (ltb 12 (mp + 3 + 1))) [
    | inl december ↦
        let nine : mp ≡ 9 = ground arith in
        let d = days_from_civil-early era yoe 10 1 yb (omega arith) (omega arith) in
        begins era yoe 10 yb (omega arith) (rw december d) (rw december refl)
          (omega (arith, nine, is, ml, mu, yb))
    | inr other ↦
        let e : mp + 3 + 1 ≡ mp + 1 + 3 = omega arith in
        let d : days_from_civil (yoe + era * 400) (mp + 3 + 1) 1 ≡ march_day era yoe (mp + 1) 1 =
          rw e (days_from_civil-late era yoe (mp + 1) 1 yb (ground arith)) in
        let t : ltb (mp + 1) 10 ≡ true = ground arith in
        begins era yoe (mp + 1) yb (ground arith) (rw other d) (rw (other, t, e) refl)
          (omega (arith, is, ml, mu, yb))
  ]

  early-Begins :
      10 ≤ mp
      → mp < 12
      → (yoe ≡ 399) ⊎ (doy < days_before (yoe + 1) - days_before yoe)
      → days_before yoe + doy < 146097
      → Begins z (yoe + era * 400 + 1, mp - 9, dd)
  early-Begins early mb end small =
      let f : ltb 12 (mp - 9 + 1) ≡ false = ground arith in
      elim (Bool-cases (ltb mp 11)) [
        | inl ten ↦
            let t : mp - 9 + 1 ≡ 2 = ground arith in
            let d = days_from_civil-early era yoe 11 1 yb (omega arith) (omega arith) in
            let n : mp ≡ 10 = ground arith in
            begins era yoe 11 yb (omega arith) (rw (f, t) d) (rw (f, t) refl)
              (omega (arith, n, is, ml, mu, yb))
        | inr eleven ↦
            let n : mp ≡ 11 = ground arith in
            let t : mp - 9 + 1 ≡ 3 = omega (arith, n) in
            elim (next_march era yoe yb) [
              | inl (l, d) ↦
                  let q : yoe + era * 400 + 1 ≡ yoe + 1 + era * 400 = omega arith in
                  begins era (yoe + 1) 0 (omega (arith, l)) (omega arith) (rw (f, t) d)
                    (rw (f, t, q) refl) (omega (arith, n, is, ml, mu, l, end))
              | inr (l, d) ↦
                  let q : yoe + era * 400 + 1 ≡ 0 + (era + 1) * 400 = omega (arith, l) in
                  begins (era + 1) 0 0 (omega arith) (omega arith) (rw (f, t) d) (rw (f, t, q) refl)
                    (omega (arith, n, is, ml, mu, l, small))
            ]
      ]

civil_from_days-Begins : (z : ℕ) → Begins z (civil_from_days z)
unfolding civil_from_days
civil_from_days-Begins z =
    let era = (z + 719468) / 146097 in
    let doe = z + 719468 - era * 146097 in
    let yoe = (doe - doe / 1460 + doe / 36524 - doe / 146096) / 365 in
    let doy = doe - (365 * yoe + yoe / 4 - yoe / 100) in
    let mp = (5 * doy + 2) / 153 in
    let dd = doy - (153 * mp + 2) / 5 + 1 in
    let small : doe < 146097 = omega arith in
    let (yb, le, db) = yoe_bounds doe small in
    let (mb, ml, mu) = month_bounds doy db in
    let end = year_end doe small in
    let is : z + 719468 ≡ era * 146097 + (days_before yoe + doy) = omega (arith, le) in
    elim (Bool-cases (ltb mp 10)) [
      | inl late ↦
          let k : leb (mp + 3) 2 ≡ false = ground arith in
          rw (late, k) (late-Begins z era yoe mp doy dd is yb ml mu (ltb→lt mp 10 late))
      | inr early ↦
          let k : leb (mp - 9) 2 ≡ true = ground arith in
          rw (early, k)
            (early-Begins z era yoe mp doy dd is yb ml mu (ltb→le mp 10 early) mb
              (omega (arith, end, le)) (omega (arith, le, small)))
    ]

-- In UTC the next boundary by the month is midnight of the first of the month behind the date of the time.
-- It is after the time, and at most 31 days after its day.
pub next_boundary_month :
    (ts : ℕ)
    → (ts < next_boundary ts month)
      × (next_boundary ts month ≤ (ts / 86400 + 31) * 86400)
      × (next_boundary ts month % 86400 ≡ 0)
      × (civil_from_days (next_boundary ts month / 86400)
          ≡ next_first (civil_from_days (ts / 86400)))
unfolding next_boundary
next_boundary_month ts =
    let date = civil_from_days (ts / 86400) in
    let b = civil_from_days-Begins (ts / 86400) in
    let first : civil_from_days (next_month date) ≡ next_first date =
      ap civil_from_days b.is_day
      ∙ civil_from_days-march_day b.era b.yoe b.mp b.yoe_max b.mp_max (omega (arith, b.soon.0))
      ∙ sym b.is_first in
    let s : Soon (ts / 86400) (next_month date) = rw b.is_day b.soon in
    let (after, near, whole, back) = midnight ts (next_month date) s in
    (after, near, whole, rw back first)
  where
    midnight :
        (ts b : ℕ)
        → Soon (ts / 86400) b
        → (ts < b * 86400)
          × (b * 86400 ≤ (ts / 86400 + 31) * 86400)
          × (b * 86400 % 86400 ≡ 0)
          × (b * 86400 / 86400 ≡ b)
    midnight ts b s = omega (arith, s.0, s.1)
