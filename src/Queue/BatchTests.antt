-- ===== src/Queue/BatchTests.antt =====
-- src/output/sink_queue.c at concrete inputs: batches of events with fields.
use hpulogc.Prelude.{ℕ, ◌<◌, ◌^◌, ◌≡◌, refl, false, [], ◌∷◌, arith}
use hpulogc.Queue.State.{Event, Queue, packed_size}
use hpulogc.Queue.Scratch.{no_scratch, filter_into, seen, written_over}
use hpulogc.Fields.Filter.{
  FilterKey, installed, filter_apply, measure, copy_kept, key_match, pad_out,
}
use hpulogc.Queue.Stream.{Item, record_of, stream, item_bytes, length-packed}
use hpulogc.Queue.Worker.{worker_round}
use hpulogc.Fields.Wire
use hpulogc.Memory.{store, le_bytes, le_value}
use hpulogc.Memory.Regions.{Holds-store, Holds-append_left, Holds-append_right}
use hpulogc.Prelude.{◌+◌, ◌++◌, ◌%◌, List, Bytes, length, replicate, ◌∙◌}
use hpulogc.Queue.State.{packed}
use hpulogc.Queue.Records.{Fits}
use hpulogc.Queue.Layout.{IsValid}
use hpulogc.Queue.Sweep.{Drains, worker_round-Drains}
use hpulogc.Queue.Traffic.{run, IsFifo, run_refines-IsFifo}
use hpulogc.Queue.Boundary.{offer, work}
use hpulogc.Queue.Tests.{zeros, plain_heap, ping, ping-Fits, ping_small}

-- The field "k" with a text of one byte, and the flag "q", in a region of 24 bytes.
abbrev tagged : ℕ → Event
tagged letter = record ping {
  fields_wire =
      Wire.spans (
        record { key = 107 ∷ []; tag = 4; value = letter ∷ [] }
        ∷ record { key = 113 ∷ []; tag = 3; value = 1 ∷ [] }
        ∷ [])
      ++ replicate 8 0;
  field_count = 2;
  fields = Wire.rows 0 (
      record { key = 107 ∷ []; tag = 4; value = letter ∷ [] }
      ∷ record { key = 113 ∷ []; tag = 3; value = 1 ∷ [] }
      ∷ []);
}

-- a whitelist of "k"
abbrev only_k : List FilterKey
only_k = installed ((107 ∷ []) ∷ [])

abbrev kept_region : ℕ → Bytes
kept_region letter = 1 ∷ 0 ∷ 4 ∷ 0 ∷ 1 ∷ 0 ∷ 107 ∷ letter ∷ []

-- In a batch of two events of which a field is removed, the sink reads the region of the second for both.
overwritten_test :
    let (p, sc) = filter_into plain_heap only_k (tagged 118) no_scratch in
    let (p', sc') = filter_into plain_heap only_k (tagged 119) sc in
    ((seen plain_heap sc p).fields_wire ≡ kept_region 118)
    × ((seen plain_heap sc' p).fields_wire ≡ kept_region 119)
    × ((seen plain_heap sc' p').fields_wire ≡ kept_region 119)
unfolding filter_into filter_apply measure copy_kept key_match pad_out written_over Wire.span
    Wire.u16_at le_bytes le_value Wire.unpack_from Wire.row_at
overwritten_test = (refl, refl, refl)

tagged-Fits : (letter : ℕ) → Fits (tagged letter)
unfolding Wire.unpack_from Wire.row_at Wire.span Wire.u16_at le_bytes le_value
tagged-Fits letter = record {
  level_fits = omega arith;
  line_fits = omega arith;
  msg_fits = omega arith;
  category_fits = omega arith;
  file_fits = omega arith;
  func_fits = omega arith;
  wire_fits = omega arith;
  count_fits = omega arith;
  src_line_fits = refl;
  realtime_fits = omega arith;
  mono_fits = omega arith;
  tid_fits = omega arith;
  fields_are = refl;
  count_is = refl;
}

packed_size-tagged : (letter : ℕ) → packed_size (tagged letter) ≡ 81
unfolding packed_size Wire.span le_bytes
packed_size-tagged letter = refl

-- two events with fields, and 300 bytes
abbrev two_items : List Item
two_items = record_of (tagged 118) ∷ record_of (tagged 119) ∷ []

abbrev loaded : Queue
loaded = record {
  buf = store zeros 0 (stream two_items);
  cap = 300;
  head = 0;
  tail = 162;
  stop = false;
  exited = false;
}

loaded-IsValid : IsValid loaded two_items
loaded-IsValid = record {
  cap_pos = omega arith;
  head-le-tail = omega arith;
  within = omega arith;
  tiles =
      let n : length (packed (packed_size (tagged 118)) (tagged 118)) ≡ 81 =
        length-packed (packed_size (tagged 118)) (tagged 118) ∙ packed_size-tagged 118 in
      let held = Holds-store zeros 0 (stream two_items) in
      let first = item_bytes (record_of (tagged 118)) in
      let second = item_bytes (record_of (tagged 119)) in
      let small : (letter : ℕ) → packed_size (tagged letter) < 2 ^ 32 =
        λ letter. rw packed_size-tagged (omega arith) in
      (
        record {
          fits = (tagged-Fits 118, small 118);
          below_end = omega (arith, packed_size-tagged 118);
          stands = Holds-append_left loaded.buf 0 first (second ++ []) held;
        },
        (
          record {
            fits = (tagged-Fits 119, small 119);
            below_end = omega (arith, packed_size-tagged 118, packed_size-tagged 119);
            stands =
                let p : (0 + packed_size (tagged 118)) % 300 ≡ 81 =
                  omega (arith, packed_size-tagged 118) in
                rw p (
                  Holds-append_left loaded.buf 81 second []
                    (rw n at (Holds-append_right loaded.buf 0 first (second ++ []) held)));
          },
          omega (arith, packed_size-tagged 118, packed_size-tagged 119),
        ),
      );
}

worker_round-Drains_example :
    Drains only_k 8 loaded two_items (worker_round plain_heap only_k 8 loaded zeros no_scratch)
worker_round-Drains_example =
    worker_round-Drains plain_heap only_k 8 loaded two_items zeros no_scratch loaded-IsValid refl
      (λ e. ground arith)

run_refines-IsFifo_example :
    IsFifo only_k 8 two_items
      (run plain_heap only_k 8 (offer ping ∷ work ∷ offer ping ∷ work ∷ []) loaded zeros no_scratch)
run_refines-IsFifo_example =
    run_refines-IsFifo plain_heap only_k 8 (offer ping ∷ work ∷ offer ping ∷ work ∷ []) loaded
      two_items zeros no_scratch loaded-IsValid refl
      ((ping-Fits, ping_small), ((ping-Fits, ping_small), tt)) (λ e. ground arith)
