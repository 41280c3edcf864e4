-- ===== src/Rotate/Tests.antt =====
-- Rotation at concrete inputs.
use hpulogc.Prelude.{◌/◌, ◌≡◌, refl, ◌+◌, ◌*◌, ◌%◌, ◌<◌, ◌≤◌}
use hpulogc.Rotate.Boundary.{
  hour, day, week, month, next_boundary, days_from_civil, civil_from_days,
}
use hpulogc.Rotate.Civil.{days_from_civil-civil_from_days}
use hpulogc.Rotate.Month.{next_first, next_boundary_month}
use hpulogc.Rotate.Next.{IsNext, next_boundary-IsNext}

civil_from_days_test : (civil_from_days 0 ≡ (1970, 1, 1)) × (civil_from_days 11016 ≡ (2000, 2, 29))
unfolding civil_from_days
civil_from_days_test = (refl, refl)

days_from_civil_test : (days_from_civil 1970 1 1 ≡ 0) × (days_from_civil 2000 3 1 ≡ 11017)
unfolding days_from_civil
days_from_civil_test = (refl, refl)

-- from within February 2000 to the first of March
month_test : next_boundary (11016 * 86400) month ≡ 11017 * 86400
unfolding next_boundary civil_from_days days_from_civil
month_test = refl

next_boundary-IsNext_example :
    IsNext 0 3600 1000000 (next_boundary 1000000 hour)
    × IsNext 0 86400 1000000 (next_boundary 1000000 day)
    × IsNext (4 * 86400) (7 * 86400) 1000000 (next_boundary 1000000 week)
next_boundary-IsNext_example = next_boundary-IsNext 1000000

days_from_civil-civil_from_days_example :
    let (y, m, d) = civil_from_days 11016 in days_from_civil y m d ≡ 11016
days_from_civil-civil_from_days_example = days_from_civil-civil_from_days 11016

next_boundary_month_example :
    (1000000 < next_boundary 1000000 month)
    × (next_boundary 1000000 month ≤ (11 + 31) * 86400)
    × (next_boundary 1000000 month % 86400 ≡ 0)
    × (civil_from_days (next_boundary 1000000 month / 86400) ≡ next_first (civil_from_days 11))
next_boundary_month_example = next_boundary_month 1000000
