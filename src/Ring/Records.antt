-- ===== src/Ring/Records.antt =====
-- src/ring/ringbuf_locked.c: how a record and a padding are written and read, and how the oldest
-- records are dropped.
use hpulogc.Prelude.{
  ℕ, zero, suc, ◌+◌, ◌-◌, ◌*◌, ◌/◌, ◌%◌, ◌^◌, false, [], ◌++◌, Option, none, some, if◌then◌else◌,
  leb, ltb, length, Bytes,
}
use hpulogc.Memory.{Mem, store, load, pack}
use hpulogc.Ring.State.{
  Policy, Msg, Meta, meta_fields, meta_size, zero_meta, read_meta, is_pad, Ring, View,
}

abbrev pub align8 : ℕ → ℕ
align8 n = (n + 7) / 8 * 8

unfoldable pub fill_meta : Msg → ℕ → Meta
fill_meta m total_len = record zero_meta {
  tid = m.tid;
  realtime_ns = m.realtime_ns;
  mono_us = m.mono_us;
  total_len = total_len;
  msg_len = length m.msg;
  line = m.line;
  level_flags = m.level + m.rec_flags * 256;
  category_len = length m.category % 2 ^ 16;
  file_len = length m.file % 2 ^ 16;
  func_len = length m.func % 2 ^ 16;
  field_count = m.field_count;
}

-- The bytes that follow the header.
abbrev pub payload : Msg → Bytes
payload m = m.category ++ (m.file ++ (m.func ++ (m.msg ++ m.fields_wire)))

unfoldable pub record_len : Msg → ℕ
record_len m =
    align8 (
      meta_size
      + length m.category
      + length m.file
      + length m.func
      + length m.msg
      + length m.fields_wire)
    % 2 ^ 32

-- The bytes of a record, whose header and texts are written one after the other.
unfoldable pub record_bytes : Msg → ℕ → Bytes
record_bytes m total = pack (meta_fields (fill_meta m total)) ++ payload m

-- The caller adds `total` to the tail.
unfoldable pub write_record : Ring → Msg → ℕ → Ring
write_record r m total = record r {
  buf = store r.buf (r.tail % r.capacity) (record_bytes m total);
  tail = r.tail + total;
}

abbrev pub pad_meta : ℕ → Meta
pad_meta n = record zero_meta { total_len = n; level_flags = 256 }

-- The header of a padding record of `n` bytes.
unfoldable pub pad_bytes : ℕ → Bytes
pad_bytes n = pack (meta_fields (pad_meta n))

unfoldable pub write_pad : Ring → Ring
write_pad r =
    let off = r.tail % r.capacity in
    let pad = (r.capacity - off) % 2 ^ 32 in
    record r { buf = store r.buf off (pad_bytes pad); tail = r.tail + pad }

-- The view of the record at address `base` of a memory.
unfoldable pub view_at : Mem → ℕ → View
view_at mem base =
    let meta = read_meta mem base in
    let p = base + meta_size in
    let q = p + meta.category_len in
    let s = q + meta.file_len in
    let t = s + meta.func_len in
    let u = t + meta.msg_len in
    record {
      meta = meta;
      category = load mem p meta.category_len;
      file = load mem q meta.file_len;
      func = load mem s meta.func_len;
      msg = load mem t meta.msg_len;
      fields_wire =
          if ltb 0 meta.field_count
          then load mem u ((meta.total_len + 2 ^ 32 - (u - base)) % 2 ^ 32)
          else [];
    }

-- `none` where the capacity is below two headers; allocation succeeds.
unfoldable pub create : ℕ → Policy → ℕ → Mem → Option Ring
create capacity_bytes policy mode garbage =
    if ltb capacity_bytes (meta_size * 2)
    then none
    else some (record {
      capacity = align8 capacity_bytes;
      buf = garbage;
      policy = policy;
      mode = mode;
      head = 0;
      tail = 0;
      dropped = 0;
      overwritten = 0;
      closed = false;
    })

abbrev pub free_bytes : Ring → ℕ
free_bytes r = r.capacity - (r.tail - r.head)

abbrev pub contig_bytes : Ring → ℕ
contig_bytes r = r.capacity - r.tail % r.capacity

-- `oldest` is dropped: the read cursor passes it, and a record that is no padding is counted.
unfoldable pub evict_one : Ring → Ring
evict_one r =
    let oldest = read_meta r.buf (r.head % r.capacity) in
    record r {
      head = r.head + oldest.total_len;
      overwritten = if is_pad oldest.level_flags then r.overwritten else r.overwritten + 1;
    }

-- The inner loop of the overwrite policy, with fuel.
unfoldable pub evict : ℕ → Ring → ℕ → Ring
evict zero r need = r
evict (suc fuel) r need =
    let rest = evict fuel (evict_one r) need in if leb need (free_bytes r) then r else rest
