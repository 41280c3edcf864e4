-- ===== src/Rotate/Next.antt =====
-- src/output/rotate.c, `hpu_rotate_next_boundary`: by the hour, the day and the week.
use hpulogc.Prelude.{ℕ, ◌+◌, ◌*◌, ◌%◌, ◌≤◌, ◌<◌, ◌≡◌, arith}
use hpulogc.Rotate.Boundary.{hour, day, week, next_boundary}

-- `b` is the first of the times `from`, `from + step`, … that is after `ts`.
abbrev pub IsNext : ℕ → ℕ → ℕ → ℕ → Type 0
IsNext from step ts b = (ts < b) × (b ≤ ts + step) × (b % step ≡ from % step)

-- In UTC the next boundary by the hour, by the day and by the week is the first full hour, midnight, or
-- midnight of a Monday after the time, the epoch being 4 days before a Monday.
pub next_boundary-IsNext :
    (ts : ℕ)
    → IsNext 0 3600 ts (next_boundary ts hour)
      × IsNext 0 86400 ts (next_boundary ts day)
      × IsNext (4 * 86400) (7 * 86400) ts (next_boundary ts week)
unfolding next_boundary
next_boundary-IsNext ts = (omega arith, omega arith, ground arith)
