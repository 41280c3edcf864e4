-- ===== src/Queue/Scratch.antt =====
-- src/output/sink_queue.c, the worker's scratch buffer `ctx->wire`, which `hpu_output_filter_apply` writes
-- the filtered fields of every event of a batch into, from the buffer's start on.
use hpulogc.Prelude.{
  ℕ, ◌+◌, Bool, true, ◌&&◌, not, List, [], ◌++◌, if◌then◌else◌, ltb, ◌==◌, length, take, drop,
  Bytes,
}
use hpulogc.Fields.Filter.{FilterKey, Filtered, FilterResult, untouched, filtered, filter_apply}
use hpulogc.Queue.State.{Event}

-- What the C library decides: whether `realloc` of a block to a size leaves it in its place, and what so
-- many bytes read as at the address of a block that is freed. `realloc` does not fail.
pub record Allocator : Type 0 where
  pub in_place : ℕ → ℕ → Bool
  pub freed : ℕ → ℕ → Bytes

-- `ctx->wire` and `ctx->wire_cap`: the number of its block, by the order of the allocations, and the bytes
-- that were written to it.
pub record Scratch : Type 0 where
  pub block : ℕ
  pub bytes : Bytes
  pub cap : ℕ

-- `ctx->wire` is NULL.
abbrev pub no_scratch : Scratch
no_scratch = record { block = 0; bytes = []; cap = 0 }

-- An event of a batch that is still collected: as it was decoded; or with its own row of fields and a region
-- that is an address, the start of a block of the scratch buffer, and a length.
pub data Pending : Type 0 where
  plain : Event → Pending
  in_scratch : ℕ → ℕ → Event → Pending

-- The buffer behind a call that filters: grown, and perhaps moved, if it was too small.
unfoldable pub written_over : Allocator → Filtered → Scratch → Scratch
written_over mem v sc = record {
  block =
      if ltb sc.cap v.scratch_cap && not (mem.in_place sc.block v.scratch_cap)
      then sc.block + 1
      else sc.block;
  bytes = v.wire ++ drop (length v.wire) sc.bytes;
  cap = v.scratch_cap;
}

abbrev pub filter_left : Allocator → Event → Scratch → FilterResult → Pending × Scratch
filter_left mem e sc untouched = (plain e, sc)
filter_left mem e sc (filtered v) =
    let sc' = written_over mem v sc in
    (
      in_scratch sc'.block (length v.wire)
          (record e { field_count = length v.fields; fields = v.fields }),
      sc',
    )

-- The fields of a decoded event by the sink's whitelist.
unfoldable pub filter_into : Allocator → List FilterKey → Event → Scratch → Pending × Scratch
filter_into mem keys e sc =
    if ltb 0 (length keys) && (ltb 0 e.field_count && ltb 0 (length e.fields_wire))
    then filter_left mem e sc (filter_apply keys true sc.cap e.fields_wire e.field_count)
    else (plain e, sc)

-- What a sink reads of an event while the buffer is as given.
abbrev pub seen : Allocator → Scratch → Pending → Event
seen mem sc (plain e) = e
seen mem sc (in_scratch block len e) = record e {
  fields_wire = if block == sc.block then take len sc.bytes else mem.freed block len;
}
