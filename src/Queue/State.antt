-- ===== src/Queue/State.antt =====
-- src/output/sink_queue.c: events, the packed layout of a record, and the state of the queue.
use hpulogc.Prelude.{
  ℕ, ◌+◌, ◌%◌, ◌^◌, Bool, List, [], ◌∷◌, ◌++◌, length, Bytes, ℤ, low_byte, clipped_u16,
}
use hpulogc.Memory.{Mem, pack}
use hpulogc.Fields.Wire.{Row}

-- `hpulogc_event_t`; a text is its bytes, and NULL is the empty text. A 64-bit field is its bit
-- pattern.
pub record Event : Type 0 where
  pub level : ℤ
  pub line : Bytes
  pub msg : Bytes
  pub category : Bytes
  pub file : Bytes
  pub func : Bytes
  pub src_line : ℤ
  pub realtime_ns : ℕ
  pub mono_us : ℕ
  pub tid : ℕ
  pub fields_wire : Bytes
  pub field_count : ℕ
  pub fields : List Row

-- `SQ_HDR`
abbrev pub header_size : ℕ
header_size = 56

-- `struct hpu_sink_queue`, less its mutex, its condition variable and its thread.
pub record Queue : Type 0 where
  pub buf : Mem
  pub cap : ℕ
  pub head : ℕ
  pub tail : ℕ
  pub stop : Bool
  pub exited : Bool

-- `sq_packed_size`
unfoldable pub packed_size : Event → ℕ
packed_size e =
    header_size
    + length e.line
    + length e.msg
    + length e.category
    + length e.file
    + length e.func
    + length e.fields_wire

-- The header's fields in the order of their offsets, with their widths.
abbrev pub header_fields : ℕ → Event → List (ℕ × ℕ)
header_fields need e =
    (4, need % 2 ^ 32)
    ∷ (1, low_byte e.level)
    ∷ (3, 0)
    ∷ (2, length e.line % 2 ^ 16)
    ∷ (2, length e.msg % 2 ^ 16)
    ∷ (2, length e.category % 2 ^ 16)
    ∷ (2, length e.file % 2 ^ 16)
    ∷ (2, length e.func % 2 ^ 16)
    ∷ (2, e.field_count % 2 ^ 16)
    ∷ (2, length e.fields_wire % 2 ^ 16)
    ∷ (2, clipped_u16 e.src_line)
    ∷ (8, 0)
    ∷ (8, e.realtime_ns)
    ∷ (8, e.mono_us)
    ∷ (8, e.tid)
    ∷ []

abbrev pub header_widths : List ℕ
header_widths = 4 ∷ 1 ∷ 3 ∷ 2 ∷ 2 ∷ 2 ∷ 2 ∷ 2 ∷ 2 ∷ 2 ∷ 2 ∷ 8 ∷ 8 ∷ 8 ∷ 8 ∷ []

abbrev pub payload : Event → Bytes
payload e = e.line ++ (e.msg ++ (e.category ++ (e.file ++ (e.func ++ e.fields_wire))))

-- The bytes that `hpu_sink_queue_push` writes for an event, from offset 0 on.
unfoldable pub packed : ℕ → Event → Bytes
packed need e = pack (header_fields need e) ++ payload e
