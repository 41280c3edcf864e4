-- ===== src/Queue/Tests.antt =====
-- The byte queue at concrete inputs.
use hpulogc.Prelude.{ℕ, zero, suc, ◌<◌, ◌^◌, ◌≡◌, ◌≢◌, refl, true, false, [], ◌∷◌, arith, pos}
use hpulogc.Memory.{Mem}
use hpulogc.Queue.State.{Event, Queue, packed_size}
use hpulogc.Queue.Push.{create, push, place, left_by, request_stop, contig}
use hpulogc.Queue.Scratch.{Allocator, no_scratch}
use hpulogc.Queue.Worker.{worker_round, flush_wait, gave_up}
use hpulogc.Fields.Wire
use hpulogc.Memory
use hpulogc.Memory.{store, le_bytes, le_value}
use hpulogc.Memory.Regions.{Holds-store}
use hpulogc.Prelude.{◌+◌, replicate, length-replicate}
use hpulogc.Queue.State.{packed, header_widths}
use hpulogc.Queue.Worker.{event_at}
use hpulogc.Queue.Long.{event_at_long}
use hpulogc.Queue.Records.{Fits}
use hpulogc.Queue.Layout.{IsValid}
use hpulogc.Queue.Pushed.{PushLeaves, push-PushLeaves}
use hpulogc.Queue.Boundary.{
  offer, work, accepted, is_queued, push_near_end, accepted-refusals, worker_round_stopped,
  flush_wait_zero, flush_wait_bounded,
}

abbrev pub zeros : Mem
zeros = λ a. 0

-- a heap in which a block grows where it stands
abbrev pub plain_heap : Allocator
plain_heap = record { in_place = λ b n. true; freed = λ b n. [] }

-- an event of one byte of line
abbrev pub ping : Event
ping = record {
  level = pos 2;
  line = 33 ∷ [];
  msg = [];
  category = [];
  file = [];
  func = [];
  src_line = pos 0;
  realtime_ns = 0;
  mono_us = 0;
  tid = 0;
  fields_wire = [];
  field_count = 0;
  fields = [];
}

-- an empty queue of 116 bytes, as the worker leaves it behind one event
abbrev behind_one : Queue
behind_one = record { buf = zeros; cap = 116; head = 57; tail = 57; stop = false; exited = false }

-- the same queue when fourteen pushes have written a bridge each
abbrev stuck : Queue
stuck = record { buf = zeros; cap = 116; head = 113; tail = 113; stop = false; exited = false }

packed_size-ping : packed_size ping ≡ 57
unfolding packed_size
packed_size-ping = refl

first_is_queued : is_queued (push (create 116 zeros) ping) ≡ true
unfolding push place create packed_size
first_is_queued = refl

abbrev pushes : ℕ → Queue → Queue
pushes zero q = q
pushes (suc n) q = pushes n (left_by (push q ping))

-- A record, then fourteen refusals, lead from a new queue to a wedged one.
reaches_stuck :
    contig (pushes 14 (record (left_by (push (create 116 zeros) ping)) { head = 57 })) ≡ 3
unfolding push place create packed_size
reaches_stuck = refl

push_near_end_example : is_queued (push behind_one ping) ≡ false
push_near_end_example =
    push_near_end behind_one ping (omega arith) (λ e. omega arith)
      (rw packed_size-ping (omega arith))

accepted-refusals_example :
    accepted plain_heap [] 8 (offer ping ∷ work ∷ offer ping ∷ []) stuck zeros no_scratch
    ≡ false ∷ false ∷ []
accepted-refusals_example =
    accepted-refusals plain_heap [] 8 (offer ping ∷ work ∷ offer ping ∷ []) stuck zeros no_scratch
      refl (omega arith) (omega arith)

abbrev stopped_with_one : Queue
stopped_with_one = request_stop (record behind_one { head = 0 })

worker_round_stopped_example :
    let s = worker_round plain_heap [] 8 stopped_with_one zeros no_scratch in
    (s.queue.head ≡ 57) × (s.queue.exited ≡ true) × (s.emitted ≡ [])
unfolding request_stop
worker_round_stopped_example =
    worker_round_stopped plain_heap [] 8 stopped_with_one zeros no_scratch refl (omega arith)
      (omega arith)

flush_wait_zero_example : flush_wait 1000 0 ((57, 1000) ∷ []) ≡ gave_up
flush_wait_zero_example =
    flush_wait_zero 1000 57 1000 [] (omega arith) (omega arith) (omega arith) (omega arith)

flush_wait_bounded_example : flush_wait 1000 5 ((57, 1001) ∷ []) ≢ gave_up
flush_wait_bounded_example =
    flush_wait_bounded 1000 5 ((57, 1001) ∷ []) (omega arith) (omega arith) (omega arith, tt)

pub ping-Fits : Fits ping
unfolding Wire.unpack_from
ping-Fits = record {
  level_fits = omega arith;
  line_fits = omega arith;
  msg_fits = omega arith;
  category_fits = omega arith;
  file_fits = omega arith;
  func_fits = omega arith;
  wire_fits = omega arith;
  count_fits = omega arith;
  src_line_fits = refl;
  realtime_fits = omega arith;
  mono_fits = omega arith;
  tid_fits = omega arith;
  fields_are = refl;
  count_is = refl;
}

pub ping_small : packed_size ping < 2 ^ 32
ping_small = rw packed_size-ping (omega arith)

behind_one-IsValid : IsValid behind_one []
behind_one-IsValid = record {
  cap_pos = omega arith;
  head-le-tail = omega arith;
  within = omega arith;
  tiles = refl;
}

-- 300 bytes, of which 243 are in front of the end
abbrev roomy : Queue
roomy = record behind_one { cap = 300 }

roomy-IsValid : IsValid roomy []
roomy-IsValid = record {
  cap_pos = omega arith;
  head-le-tail = omega arith;
  within = omega arith;
  tiles = refl;
}

push-roomy : is_queued (push roomy ping) ≡ true
unfolding push place packed_size
push-roomy = refl

push-PushLeaves_example : PushLeaves roomy [] ping (push roomy ping)
push-PushLeaves_example = push-PushLeaves roomy [] ping roomy-IsValid ping-Fits ping_small

abbrev long_ping : Event
long_ping = record ping { msg = replicate (2 ^ 16) 33 }

event_at_long_example :
    (event_at
      (store zeros 0 (packed 7 long_ping))
      (0 + 56)
      (Memory.unpack (store zeros 0 (packed 7 long_ping)) 0 header_widths)).msg
    ≡ []
event_at_long_example =
    event_at_long (store zeros 0 (packed 7 long_ping)) 0 7 long_ping (omega arith) (omega arith)
      (omega arith) (Holds-store zeros 0 (packed 7 long_ping))
      (length-replicate {A = ℕ} (2 ^ 16) 33)
