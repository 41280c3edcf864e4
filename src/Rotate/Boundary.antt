-- ===== src/Rotate/Boundary.antt =====
-- src/output/rotate.c, `hpu_rotate_next_boundary` in UTC, at times from the epoch on.
use hpulogc.Prelude.{ℕ, ◌+◌, ◌-◌, ◌*◌, ◌/◌, ◌%◌, if◌then◌else◌, leb, ltb}

-- `HPULOGC_TU_*`
pub data TimeUnit : Type 0 where
  hour day week month : TimeUnit

-- `days_from_civil`, of a year that is not negative, for a day that is not before the epoch.
unfoldable pub days_from_civil : ℕ → ℕ → ℕ → ℕ
days_from_civil year m d =
    let y = if leb m 2 then year - 1 else year in
    let era = y / 400 in
    let yoe = y - era * 400 in
    let m_shift = if ltb 2 m then m - 3 else m + 9 in
    let doy = (153 * m_shift + 2) / 5 + d - 1 in
    let doe = yoe * 365 + yoe / 4 - yoe / 100 + doy in era * 146097 + doe - 719468

-- `civil_from_days`: the year, the month and the day.
unfoldable pub civil_from_days : ℕ → ℕ × ℕ × ℕ
civil_from_days days =
    let z = days + 719468 in
    let era = z / 146097 in
    let doe = z - era * 146097 in
    let yoe = (doe - doe / 1460 + doe / 36524 - doe / 146096) / 365 in
    let yy = yoe + era * 400 in
    let doy = doe - (365 * yoe + yoe / 4 - yoe / 100) in
    let mp = (5 * doy + 2) / 153 in
    let dd = doy - (153 * mp + 2) / 5 + 1 in
    let mm = if ltb mp 10 then mp + 3 else mp - 9 in ((if leb mm 2 then yy + 1 else yy), mm, dd)

abbrev pub next_month : ℕ × ℕ × ℕ → ℕ
next_month (y, m, d) =
    if ltb 12 (m + 1) then days_from_civil (y + 1) 1 1 else days_from_civil y (m + 1) 1

-- `hpu_rotate_next_boundary` with `use_utc`
unfoldable pub next_boundary : ℕ → TimeUnit → ℕ
next_boundary ts hour = (ts / 3600 + 1) * 3600
next_boundary ts day = (ts / 86400 + 1) * 86400
next_boundary ts week =
    let wday = (ts / 86400 + 4) % 7 in
    let days_to_monday = (1 + 7 - wday) % 7 in
    let boundary = (ts / 86400 + days_to_monday) * 86400 in
    if leb boundary ts then boundary + 7 * 86400 else boundary
next_boundary ts month = next_month (civil_from_days (ts / 86400)) * 86400
