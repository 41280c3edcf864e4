-- ===== src/Queue/Worker.antt =====
-- src/output/sink_queue.c, the worker: `sq_decode`, `sq_worker_main`, and `hpu_sink_queue_flush_wait`.
use hpulogc.Prelude.{
  ℕ, zero, suc, ◌+◌, ◌-◌, ◌%◌, ◌^◌, true, ◌&&◌, ◌||◌, List, map, [], ◌∷◌, ◌++◌, Option, none, some,
  if◌then◌else◌, leb, ltb, ◌==◌, length, min, Bytes, pos, signed_byte,
}
use hpulogc.Memory.{Mem, store, load, word}
use hpulogc.Memory
use hpulogc.Fields.Wire
use hpulogc.Fields.Serialize.{max_fields}
use hpulogc.Fields.Filter.{FilterKey}
use hpulogc.Queue.State.{Event, header_size, Queue, header_widths}
use hpulogc.Queue.Push.{used}
use hpulogc.Queue.Scratch.{Allocator, Scratch, Pending, filter_into, seen}

-- The event of a header and of the texts behind it, which begin at `p`.
unfoldable pub event_at : Mem → ℕ → List ℕ → Event
event_at mem p
      (rec_len ∷ level ∷ gap ∷ line_len ∷ body_len ∷ cat_len ∷ file_len ∷ func_len ∷ count
        ∷ fields_len ∷ src_line ∷ gap' ∷ realtime_ns ∷ mono_us ∷ tid ∷ []) =
    let m = p + line_len in
    let c = m + body_len in
    let f = c + cat_len in
    let g = f + file_len in
    let w = g + func_len in
    let wire = load mem w fields_len in
    let fields = Wire.unpack count max_fields wire in
    record {
      level = signed_byte level;
      line = load mem p line_len;
      msg = load mem m body_len;
      category = load mem c cat_len;
      file = load mem f file_len;
      func = load mem g func_len;
      src_line = pos src_line;
      realtime_ns = realtime_ns;
      mono_us = mono_us;
      tid = tid;
      fields_wire = wire;
      field_count = length fields;
      fields = fields;
    }
event_at mem p _ = record {
  level = pos 0;
  line = [];
  msg = [];
  category = [];
  file = [];
  func = [];
  src_line = pos 0;
  realtime_ns = 0;
  mono_us = 0;
  tid = 0;
  fields_wire = [];
  field_count = 0;
  fields = [];
}

-- `sq_decode`: the event and its record's length; `none` is 0.
unfoldable pub decode : ℕ → Mem → ℕ → Option (Event × ℕ)
decode cap sweep off =
    let rec_len = word sweep off 4 in
    if ltb cap (off + header_size)
    then none
    else if ltb rec_len header_size || ltb cap (off + rec_len)
    then none
    else some (event_at sweep (off + header_size) (Memory.unpack sweep off header_widths), rec_len)

-- The inner loop, from an offset of the sweep on: the events of a batch with room for `room` more, where
-- it stops, and the scratch buffer. Every round passes 4 bytes at least.
unfoldable pub collect :
    Allocator → ℕ → List FilterKey → ℕ → Mem → ℕ → ℕ → ℕ → Scratch → List Pending × ℕ × Scratch
collect mem zero keys cap sweep avail room off sc = ([], off, sc)
collect mem (suc fuel) keys cap sweep avail room off sc =
    let skipped = collect mem fuel keys cap sweep avail room (off + 4) sc in
    if room == 0 || ltb avail (off + header_size)
    then ([], off, sc)
    else if word sweep off 4 == 0
    then skipped
    else elim (decode cap sweep off) [
      | none ↦ ([], off, sc)
      | some (e, rec_len) ↦
          let (p, sc') = filter_into mem keys e sc in
          let (ps, stop, last) =
            collect mem fuel keys cap sweep avail (room - 1) (off + rec_len) sc' in
          (p ∷ ps, stop, last)
    ]

-- A batch, as the sink reads it while it is handed out, before the later ones; none if it is empty.
abbrev pub batched :
    Allocator
    → List Pending × ℕ × Scratch
    → List (List Event) × Scratch
    → List (List Event) × Scratch
batched mem ([], stop, sc) later = ([], sc)
batched mem (p ∷ ps, stop, sc) later = (map (seen mem sc) (p ∷ ps) ∷ later.0, later.1)

-- The outer loop: the batches that are handed to the sink, in order, as it reads them, and the scratch
-- buffer behind the last.
unfoldable pub batches :
    Allocator → ℕ → List FilterKey → ℕ → Mem → ℕ → ℕ → ℕ → Scratch → List (List Event) × Scratch
batches mem zero keys cap sweep avail batch_max off sc = ([], sc)
batches mem (suc fuel) keys cap sweep avail batch_max off sc =
    let out = collect mem avail keys cap sweep avail batch_max off sc in
    let rest = batches mem fuel keys cap sweep avail batch_max out.1 out.2 in
    if ltb avail (off + header_size) then ([], sc) else batched mem out rest

-- The bytes in use, swept out of the ring in at most two parts.
unfoldable pub swept : Queue → ℕ → Bytes
swept q avail =
    let begin = q.head % q.cap in
    if ltb q.cap (begin + avail)
    then load q.buf begin (q.cap - begin) ++ load q.buf 0 (avail - (q.cap - begin))
    else load q.buf begin avail

-- What one round of the worker leaves: the queue, its sweep area, its scratch buffer, and the batches for
-- the sink.
pub record Swept : Type 0 where
  pub queue : Queue
  pub sweep : Mem
  pub scratch : Scratch
  pub emitted : List (List Event)

-- One round of `sq_worker_main`, from the end of its wait on.
unfoldable pub worker_round : Allocator → List FilterKey → ℕ → Queue → Mem → Scratch → Swept
worker_round mem keys batch_max q sweep0 sc =
    let avail = min (used q) q.cap in
    let sweep = store sweep0 0 (swept q avail) in
    let q' = record q { head = q.head + avail } in
    let (out, sc') = batches mem avail keys q.cap sweep avail batch_max 0 sc in
    if q.stop && q.tail == q.head + avail
    then record { queue = record q' { exited = true }; sweep = sweep; scratch = sc; emitted = [] }
    else record { queue = q'; sweep = sweep; scratch = sc'; emitted = out }

-- How `hpu_sink_queue_flush_wait` ends: drained, out of time, or still waiting after these looks.
pub data FlushWait : Type 0 where
  drained gave_up pending : FlushWait

unfoldable pub wait_until : ℕ → List (ℕ × ℕ) → FlushWait
wait_until deadline [] = pending
wait_until deadline ((in_use, now) ∷ looks) =
    let rest = wait_until deadline looks in
    if in_use == 0 then drained else if leb deadline now then gave_up else rest

-- `begun` is the clock at the call, in milliseconds; each look has the bytes in use and the clock.
unfoldable pub flush_wait : ℕ → ℕ → List (ℕ × ℕ) → FlushWait
flush_wait begun timeout_ms looks =
    wait_until ((begun + (if timeout_ms == 0 then 2 ^ 64 - 1 else timeout_ms)) % 2 ^ 64) looks
