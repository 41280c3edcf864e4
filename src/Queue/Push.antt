-- ===== src/Queue/Push.antt =====
-- src/output/sink_queue.c, `hpu_sink_queue_push`, and the queue's creation and stop.
use hpulogc.Prelude.{ℕ, ◌+◌, ◌-◌, ◌%◌, true, false, [], ◌∷◌, if◌then◌else◌, ltb, leb, Bytes}
use hpulogc.Memory.{Mem, store}
use hpulogc.Queue.State.{Event, Queue, packed_size, packed}

-- The call's result, 0, 1 or -1, and the queue it leaves.
pub data Pushed : Type 0 where
  queued : Queue → Pushed
  full : Queue → Pushed
  refused : Queue → Pushed

abbrev pub left_by : Pushed → Queue
left_by (queued q) = q
left_by (full q) = q
left_by (refused q) = q

abbrev pub used : Queue → ℕ
used q = q.tail - q.head

abbrev pub contig : Queue → ℕ
contig q = q.cap - q.tail % q.cap

abbrev pub pad_header : Bytes
pad_header = 0 ∷ 0 ∷ 0 ∷ 0 ∷ []

abbrev pub write_bridge : Queue → Queue
write_bridge q = record q { buf = store q.buf (q.tail % q.cap) pad_header; tail = q.tail + 4 }

-- From the second test of the free space on.
unfoldable pub place : Queue → Event → ℕ → Pushed
place q e need =
    if ltb (q.cap - used q) need
    then full q
    else if ltb q.cap (q.tail % q.cap + need)
    then full q
    else queued
        (record q { buf = store q.buf (q.tail % q.cap) (packed need e); tail = q.tail + need })

unfoldable pub push : Queue → Event → Pushed
push q e =
    let need = packed_size e in
    if q.stop
    then refused q
    else if ltb (contig q) (need + 4)
    then (if ltb (q.cap - used q) (contig q)
        then full q
        else if leb 4 (contig q)
        then place (write_bridge q) e need
        else place q e need)
    else place q e need

-- Allocation and the worker's start succeed; `garbage` is what the buffer holds.
unfoldable pub create : ℕ → Mem → Queue
create capacity garbage = record {
  buf = garbage;
  cap = capacity;
  head = 0;
  tail = 0;
  stop = false;
  exited = false;
}

-- `hpu_sink_queue_destroy` up to the join: the worker is told to drain and to stop.
unfoldable pub request_stop : Queue → Queue
request_stop q = record q { stop = true }
