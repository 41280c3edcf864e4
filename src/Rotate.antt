-- ===== src/Rotate.antt =====
-- src/output/rotate.c: when a log file is rotated by time.
pub mod Boundary
pub mod Next
pub mod Civil
pub mod MarchDate
pub mod Month
mod Tests
