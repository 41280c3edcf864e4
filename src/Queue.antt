-- ===== src/Queue.antt =====
-- src/output/sink_queue.c: the bounded byte queue between the producers and the worker thread of one
-- asynchronous sink.
pub mod State
pub mod Push
pub mod Scratch
pub mod Handed
pub mod Worker
pub mod Records
pub mod Stream
pub mod Collected
pub mod Drained
pub mod Layout
pub mod Pushed
pub mod Sweep
pub mod Traffic
pub mod Long
pub mod Boundary
mod Tests
mod BatchTests
