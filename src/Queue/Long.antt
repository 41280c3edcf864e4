-- ===== src/Queue/Long.antt =====
-- src/output/sink_queue.c: a message of the greatest length that a configuration allows, 65536 bytes.
use hpulogc.Prelude.{ℕ, ◌+◌, ◌%◌, ◌^◌, ◌<◌, ◌≡◌, ap, ◌∙◌, arith, [], length}
use hpulogc.Memory
use hpulogc.Memory.{Mem, load, pack}
use hpulogc.Memory.Regions.{Holds, Holds-append_left}
use hpulogc.Memory.Words.{AllFit, unpack-pack}
use hpulogc.Queue.State.{Event, header_size, header_fields, header_widths, payload, packed}
use hpulogc.Queue.Worker.{event_at}
use hpulogc.Queue.Records.{low_byte_bound, clipped_bound}

-- A message of 65536 bytes is read back from its record as the empty message: its length is kept in 16
-- bits.
pub event_at_long :
    (mem : Mem) (off need : ℕ) (e : Event)
    → e.realtime_ns < 2 ^ 64
    → e.mono_us < 2 ^ 64
    → e.tid < 2 ^ 64
    → Holds mem off (packed need e)
    → length e.msg ≡ 2 ^ 16
    → (event_at mem (off + header_size) (Memory.unpack mem off header_widths)).msg ≡ []
unfolding packed event_at load
event_at_long mem off need e r m t held long =
    let fit : AllFit (header_fields need e) =
      omega (arith, low_byte_bound e.level, clipped_bound e.src_line, r, m, t) in
    let words =
      unpack-pack (header_fields need e) mem off fit
        (Holds-append_left mem off (pack (header_fields need e)) (payload e) held) in
    let cut : length e.msg % 2 ^ 16 ≡ 0 = omega (arith, long) in
    ap (λ ws. (event_at mem (off + header_size) ws).msg) words
    ∙ ap (load mem (off + header_size + length e.line % 2 ^ 16)) cut
