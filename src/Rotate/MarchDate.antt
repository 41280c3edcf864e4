-- ===== src/Rotate/MarchDate.antt =====
-- src/output/rotate.c, `civil_from_days` at the first day of a month.
use hpulogc.Prelude.{
  ℕ, refl, if◌then◌else◌, ltb→lt, ltb→le, ◌+◌, ◌-◌, ◌*◌, ◌/◌, ◌≤◌, ◌<◌, ◌≡◌, inl, inr, ◌⊎◌, true,
  false, Bool-cases, arith, leb, ltb,
}
use hpulogc.Rotate.Boundary.{civil_from_days}
use hpulogc.Rotate.Civil.{yoe_bounds, march_day}

pub year_end :
    (doe : ℕ)
    → doe < 146097
    → let yoe = (doe - doe / 1460 + doe / 36524 - doe / 146096) / 365 in
      (yoe ≡ 399) ⊎ (doe < 365 * (yoe + 1) + (yoe + 1) / 4 - (yoe + 1) / 100)
year_end doe h = ground arith

-- The civil date of the first of the month `mp` of a year that begins in March.
abbrev pub march_date : ℕ → ℕ → ℕ → ℕ × ℕ × ℕ
march_date era yoe mp =
    if ltb mp 10 then (yoe + era * 400, mp + 3, 1) else (yoe + era * 400 + 1, mp - 9, 1)

abbrev pub days_before : ℕ → ℕ
days_before yoe = 365 * yoe + yoe / 4 - yoe / 100

days_before_step : (a b : ℕ) → a < b → days_before a + 365 ≤ days_before b
days_before_step a b h = omega arith

-- A day of the year `yoe` of the era is found to be of this year.
year_of :
    (yoe m : ℕ)
    → yoe < 400
    → m < 338
    → let doe = days_before yoe + m in (doe - doe / 1460 + doe / 36524 - doe / 146096) / 365 ≡ yoe
year_of yoe m h k =
    let doe = days_before yoe + m in
    let small : doe < 146097 = omega arith in
    let found = (doe - doe / 1460 + doe / 36524 - doe / 146096) / 365 in
    let (fb, le, db) = yoe_bounds doe small in
    elim (Bool-cases (ltb found yoe)) [
      | inl before ↦
          let l : found < yoe = ltb→lt found yoe before in
          elim (year_end doe small) [
            | inl last ↦ absurd (omega (arith, last, l, h))
            | inr end ↦
                absurd (omega (arith, end, days_before_mono (found + 1) yoe (omega (arith, l))))
          ]
      | inr not_before ↦ elim (Bool-cases (ltb yoe found)) [
        | inl after ↦
            absurd (omega (arith, le, days_before_step yoe found (ltb→lt yoe found after)))
        | inr not_after ↦ omega (arith, ltb→le found yoe not_before, ltb→le yoe found not_after)
      ]
    ]
  where
    days_before_mono : (a b : ℕ) → a ≤ b → days_before a ≤ days_before b
    days_before_mono a b h = omega arith

month_of : (mp : ℕ) → mp < 12 → (5 * ((153 * mp + 2) / 5) + 2) / 153 ≡ mp
month_of mp h = omega arith

same_day : (n : ℕ) → n - n + 1 ≡ 1
same_day n = omega arith

pub civil_from_days-march_day :
    (era yoe mp : ℕ)
    → yoe < 400
    → mp < 12
    → 0 < march_day era yoe mp 1
    → civil_from_days (march_day era yoe mp 1) ≡ march_date era yoe mp
unfolding civil_from_days
civil_from_days-march_day era yoe mp h k p =
    let m = (153 * mp + 2) / 5 in
    let short : m < 338 = omega arith in
    let doe = days_before yoe + m in
    let small : doe < 146097 = omega arith in
    let z : march_day era yoe mp 1 + 719468 ≡ era * 146097 + doe = omega arith in
    let e : (era * 146097 + doe) / 146097 ≡ era = omega (arith, small) in
    let d : era * 146097 + doe - era * 146097 ≡ doe = omega arith in
    let y = year_of yoe m h short in
    let doy : doe - days_before yoe ≡ m = omega arith in
    rw (z, e, d, y, doy, month_of mp k, same_day m)
      (elim (Bool-cases (ltb mp 10)) [
        | inl late ↦ let f : leb (mp + 3) 2 ≡ false = ground arith in rw (late, f) refl
        | inr early ↦ let f : leb (mp - 9) 2 ≡ true = ground arith in rw (early, f) refl
      ])
