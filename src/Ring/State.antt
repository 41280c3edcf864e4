-- ===== src/Ring/State.antt =====
-- src/ring/ringbuf.h, and the state of src/ring/ringbuf_locked.c: records, headers, views and the ring.
use hpulogc.Prelude.{ℕ, ◌/◌, ◌%◌, Bool, List, [], ◌∷◌, ◌==◌, Bytes}
use hpulogc.Memory.{Mem, unpack}

-- `RB_POL_*`
pub data Policy : Type 0 where
  discard overwrite wait : Policy

-- `HPU_RING_*`
pub data Status : Type 0 where
  ok empty dropped : Status

-- `hpu_ring_msg_t`; a text is its bytes, and NULL is the empty text.
pub record Msg : Type 0 where
  pub level : ℕ
  pub rec_flags : ℕ
  pub category : Bytes
  pub file : Bytes
  pub func : Bytes
  pub line : ℕ
  pub tid : ℕ
  pub realtime_ns : ℕ
  pub mono_us : ℕ
  pub msg : Bytes
  pub fields_wire : Bytes
  pub field_count : ℕ

-- `hpu_ring_meta_t`; a signed field is its bit pattern.
pub record Meta : Type 0 where
  pub commit : ℕ
  pub tid : ℕ
  pub realtime_ns : ℕ
  pub mono_us : ℕ
  pub total_len : ℕ
  pub msg_len : ℕ
  pub line : ℕ
  pub level_flags : ℕ
  pub category_len : ℕ
  pub file_len : ℕ
  pub func_len : ℕ
  pub field_count : ℕ

-- The fields of the header in the order of the structure, with their sizes.
abbrev pub meta_fields : Meta → List (ℕ × ℕ)
meta_fields m =
    (8, m.commit)
    ∷ (8, m.tid)
    ∷ (8, m.realtime_ns)
    ∷ (8, m.mono_us)
    ∷ (4, m.total_len)
    ∷ (4, m.msg_len)
    ∷ (4, m.line)
    ∷ (4, m.level_flags)
    ∷ (2, m.category_len)
    ∷ (2, m.file_len)
    ∷ (2, m.func_len)
    ∷ (2, m.field_count)
    ∷ []

abbrev pub meta_widths : List ℕ
meta_widths = 8 ∷ 8 ∷ 8 ∷ 8 ∷ 4 ∷ 4 ∷ 4 ∷ 4 ∷ 2 ∷ 2 ∷ 2 ∷ 2 ∷ []

-- `sizeof(hpu_ring_meta_t)`
abbrev pub meta_size : ℕ
meta_size = 56

-- A zeroed header, as `memset` leaves it.
abbrev pub zero_meta : Meta
zero_meta = record {
  commit = 0;
  tid = 0;
  realtime_ns = 0;
  mono_us = 0;
  total_len = 0;
  msg_len = 0;
  line = 0;
  level_flags = 0;
  category_len = 0;
  file_len = 0;
  func_len = 0;
  field_count = 0;
}

-- The header as a value, from the words of its fields.
abbrev pub meta_of : List ℕ → Meta
meta_of (a ∷ b ∷ c ∷ d ∷ e ∷ f ∷ g ∷ h ∷ i ∷ j ∷ k ∷ l ∷ []) = record {
  commit = a;
  tid = b;
  realtime_ns = c;
  mono_us = d;
  total_len = e;
  msg_len = f;
  line = g;
  level_flags = h;
  category_len = i;
  file_len = j;
  func_len = k;
  field_count = l;
}
meta_of _ = zero_meta

-- `out->meta = *meta`
unfoldable pub read_meta : Mem → ℕ → Meta
read_meta m pos = meta_of (unpack m pos meta_widths)

-- `HPU_REC_LEVEL`, and the test of `HPU_REC_FLAGS` for `HPU_REC_FLAG_PAD`
abbrev pub rec_level : ℕ → ℕ
rec_level level_flags = level_flags % 256

abbrev pub is_pad : ℕ → Bool
is_pad level_flags = level_flags / 256 % 256 % 2 == 1

-- `struct hpu_ring`, less its mutex and its condition variables.
pub record Ring : Type 0 where
  pub capacity : ℕ
  pub buf : Mem
  pub policy : Policy
  pub mode : ℕ
  pub head : ℕ
  pub tail : ℕ
  pub dropped : ℕ
  pub overwritten : ℕ
  pub closed : Bool

-- `hpu_ring_view_t`; a pointer with its length is the bytes, and NULL is the empty text.
pub record View : Type 0 where
  pub meta : Meta
  pub category : Bytes
  pub file : Bytes
  pub func : Bytes
  pub msg : Bytes
  pub fields_wire : Bytes
