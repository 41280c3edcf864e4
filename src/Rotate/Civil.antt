-- ===== src/Rotate/Civil.antt =====
-- src/output/rotate.c: `civil_from_days`, then `days_from_civil`.
use hpulogc.Prelude.{
  ℕ, ◌+◌, ◌-◌, ◌*◌, ◌/◌, ◌≤◌, ◌<◌, ◌≡◌, refl, ◌∙◌, inl, inr, true, false, Bool-cases, arith, leb,
  ltb,
}
use hpulogc.Rotate.Boundary.{civil_from_days, days_from_civil}

-- The year of the era and the day of the year.
pub yoe_bounds :
    (doe : ℕ)
    → doe < 146097
    → let yoe = (doe - doe / 1460 + doe / 36524 - doe / 146096) / 365 in
      (yoe < 400)
      × (365 * yoe + yoe / 4 - yoe / 100 ≤ doe)
      × (doe - (365 * yoe + yoe / 4 - yoe / 100) < 366)
yoe_bounds doe h = omega arith

pub month_bounds :
    (doy : ℕ)
    → doy < 366
    → let mp = (5 * doy + 2) / 153 in
      (mp < 12) × ((153 * mp + 2) / 5 ≤ doy) × (doy < (153 * (mp + 1) + 2) / 5)
month_bounds doy h = omega arith

-- The day of a year that begins in March, its months counted from 0.
abbrev pub march_day : ℕ → ℕ → ℕ → ℕ → ℕ
march_day era yoe mp dd =
    era * 146097 + (yoe * 365 + yoe / 4 - yoe / 100 + ((153 * mp + 2) / 5 + dd - 1)) - 719468

pub days_from_civil-late :
    (era yoe mp dd : ℕ)
    → yoe < 400
    → mp < 10
    → days_from_civil (yoe + era * 400) (mp + 3) dd ≡ march_day era yoe mp dd
unfolding days_from_civil
days_from_civil-late era yoe mp dd h m =
    let a : (yoe + era * 400) / 400 ≡ era = omega arith in
    let b : yoe + era * 400 - era * 400 ≡ yoe = omega arith in
    let c : mp + 3 - 3 ≡ mp = omega arith in
    let d : leb (mp + 3) 2 ≡ false = ground arith in
    let e : ltb 2 (mp + 3) ≡ true = ground arith in rw (d, e, a, b, c) refl

pub days_from_civil-early :
    (era yoe mp dd : ℕ)
    → yoe < 400
    → 10 ≤ mp
    → mp < 12
    → days_from_civil (yoe + era * 400 + 1) (mp - 9) dd ≡ march_day era yoe mp dd
unfolding days_from_civil
days_from_civil-early era yoe mp dd h l m =
    let y : yoe + era * 400 + 1 - 1 ≡ yoe + era * 400 = omega arith in
    let a : (yoe + era * 400) / 400 ≡ era = omega arith in
    let b : yoe + era * 400 - era * 400 ≡ yoe = omega arith in
    let c : mp - 9 + 9 ≡ mp = omega arith in
    let d : leb (mp - 9) 2 ≡ true = ground arith in
    let e : ltb 2 (mp - 9) ≡ false = ground arith in rw (d, e, y, a, b, c) refl

-- `days_from_civil` of the civil date of a day is the day.
pub days_from_civil-civil_from_days :
    (z : ℕ) → let (y, m, d) = civil_from_days z in days_from_civil y m d ≡ z
unfolding civil_from_days
days_from_civil-civil_from_days z =
    let era = (z + 719468) / 146097 in
    let doe = z + 719468 - era * 146097 in
    let yoe = (doe - doe / 1460 + doe / 36524 - doe / 146096) / 365 in
    let doy = doe - (365 * yoe + yoe / 4 - yoe / 100) in
    let mp = (5 * doy + 2) / 153 in
    let dd = doy - (153 * mp + 2) / 5 + 1 in
    let small : doe < 146097 = omega arith in
    let (yb, le, db) = yoe_bounds doe small in
    let (mb, ml, mu) = month_bounds doy db in
    let whole : march_day era yoe mp dd ≡ z = omega (arith, le, ml, yb) in
    elim (Bool-cases (ltb mp 10)) [
      | inl late ↦
          let k : leb (mp + 3) 2 ≡ false = ground arith in
          rw (late, k) (days_from_civil-late era yoe mp dd yb (ground arith) ∙ whole)
      | inr early ↦
          let k : leb (mp - 9) 2 ≡ true = ground arith in
          rw (early, k) (days_from_civil-early era yoe mp dd yb (ground arith) mb ∙ whole)
    ]
