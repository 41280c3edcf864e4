-- ===== src/Ring.antt =====
-- src/ring/ringbuf_locked.c over src/ring/ringbuf.h: the bounded ring of contiguous log records between
-- the producers and the consumer. Each operation runs under the ring's mutex, so it is one step on
-- the ring's state. The cursors are monotonic byte counts and are not wrapped at 2 ^ 64.
pub mod State
pub mod Records
pub mod Calls
pub mod Views
pub mod Layout
pub mod Evict
pub mod Writes
pub mod Outcomes
pub mod Same
pub mod TooLong
pub mod Put
pub mod Get
pub mod Traffic
mod Tests
