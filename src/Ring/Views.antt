-- ===== src/Ring/Views.antt =====
-- src/ring/ringbuf_locked.c, `read_record` and the staged copy: what is read of a written record.
use hpulogc.Prelude.{
  Bool-cases, inl, inr, ltb→le, if◌then◌else◌, ℕ, ◌+◌, ◌-◌, ◌%◌, ◌^◌, ◌≤◌, ◌<◌, ◌≡◌, refl, ap, ◌∙◌,
  false, [], ◌++◌, arith, length, length-append, Bytes, ltb,
}
use hpulogc.Memory.{Mem, load, pack}
use hpulogc.Memory.Regions.{Holds, load-Holds, Holds-append_left, Holds-append_right, load-append}
use hpulogc.Memory.Words.{AllFit, length-pack, unpack-pack}
use hpulogc.Ring.State.{
  Msg, Meta, meta_fields, meta_of, meta_size, read_meta, is_pad, rec_level, View,
}
use hpulogc.Ring.Records.{
  fill_meta, payload, record_len, record_bytes, pad_bytes, pad_meta, view_at,
}

-- The record's fields fit their C types, it is an ordinary record, and its length fits 32 bits.
pub record IsFit (m : Msg) : Type 0 where
  pub level_fits : m.level < 256
  pub ordinary : m.rec_flags ≡ 0
  pub category_fits : length m.category < 2 ^ 16
  pub file_fits : length m.file < 2 ^ 16
  pub func_fits : length m.func < 2 ^ 16
  pub line_fits : m.line < 2 ^ 32
  pub tid_fits : m.tid < 2 ^ 64
  pub realtime_fits : m.realtime_ns < 2 ^ 64
  pub mono_fits : m.mono_us < 2 ^ 64
  pub count_fits : m.field_count < 2 ^ 16
  pub no_wire : m.field_count ≡ 0 → m.fields_wire ≡ []
  pub size_fits : meta_size + length (payload m) + 8 < 2 ^ 32

-- What the consumer is handed of a record: its fields, its texts, and its wire region, which may
-- be followed by the bytes that pad the record.
pub record Delivers (v : View) (m : Msg) : Type 0 where
  pub level_is : rec_level v.meta.level_flags ≡ m.level
  pub ordinary : is_pad v.meta.level_flags ≡ false
  pub tid_is : v.meta.tid ≡ m.tid
  pub realtime_is : v.meta.realtime_ns ≡ m.realtime_ns
  pub mono_is : v.meta.mono_us ≡ m.mono_us
  pub line_is : v.meta.line ≡ m.line
  pub count_is : v.meta.field_count ≡ m.field_count
  pub category_is : v.category ≡ m.category
  pub file_is : v.file ≡ m.file
  pub func_is : v.func ≡ m.func
  pub msg_is : v.msg ≡ m.msg
  pub wire_is : (padding : Bytes) × (v.fields_wire ≡ m.fields_wire ++ padding)

pub length-payload :
    (m : Msg)
    → length (payload m)
      ≡ length m.category + length m.file + length m.func + length m.msg + length m.fields_wire
length-payload m = omega (
  arith,
  length-append m.category (m.file ++ (m.func ++ (m.msg ++ m.fields_wire))),
  length-append m.file (m.func ++ (m.msg ++ m.fields_wire)),
  length-append m.func (m.msg ++ m.fields_wire),
  length-append m.msg m.fields_wire,
)

pub length-record_bytes :
    (m : Msg) (total : ℕ) → length (record_bytes m total) ≡ meta_size + length (payload m)
unfolding record_bytes
length-record_bytes m total =
    length-append (pack (meta_fields (fill_meta m total))) (payload m)
    ∙ ap (λ k. k + length (payload m)) (length-pack (meta_fields (fill_meta m total)))

-- The rounded length of a record that fits: no wrap, and less than 8 bytes more.
pub record_len_bounds :
    (m : Msg) → IsFit m → (meta_size + length (payload m) ≤ record_len m) × (record_len m < 2 ^ 32)
unfolding record_len
record_len_bounds m fit = omega (arith, length-payload m, fit.size_fits)

meta_fit :
    (m : Msg) (total : ℕ) → IsFit m → total < 2 ^ 32 → AllFit (meta_fields (fill_meta m total))
unfolding fill_meta
meta_fit m total fit h = omega (arith, length-payload m)

-- A header that stands at an address is read back.
pub read_meta-Holds :
    (mem : Mem) (base : ℕ) (meta : Meta)
    → AllFit (meta_fields meta)
    → Holds mem base (pack (meta_fields meta))
    → read_meta mem base ≡ meta
unfolding read_meta
read_meta-Holds mem base meta fit held =
    ap meta_of (unpack-pack (meta_fields meta) mem base fit held)

pub read_meta-record :
    (mem : Mem) (base : ℕ) (m : Msg) (total : ℕ)
    → IsFit m
    → total < 2 ^ 32
    → Holds mem base (record_bytes m total)
    → read_meta mem base ≡ fill_meta m total
unfolding record_bytes
read_meta-record mem base m total fit h held =
    read_meta-Holds mem base (fill_meta m total) (meta_fit m total fit h)
      (Holds-append_left mem base (pack (meta_fields (fill_meta m total))) (payload m) held)

pub read_meta-pad :
    (mem : Mem) (base n : ℕ)
    → n < 2 ^ 32
    → Holds mem base (pad_bytes n)
    → ((read_meta mem base).total_len ≡ n) × ((read_meta mem base).level_flags ≡ 256)
unfolding pad_bytes
read_meta-pad mem base n h held =
    let e = read_meta-Holds mem base (pad_meta n) (omega arith) held in
    (ap (λ (k : Meta). k.total_len) e, ap (λ (k : Meta). k.level_flags) e)

-- One text of the payload, and what follows it.
load_text :
    (mem : Mem) (p : ℕ) (text rest : Bytes)
    → Holds mem p (text ++ rest)
    → load mem p (length text) ≡ text
load_text mem p text rest held = load-Holds mem p text (Holds-append_left mem p text rest held)

payload-Holds :
    (mem : Mem) (base : ℕ) (m : Msg) (total : ℕ)
    → Holds mem base (record_bytes m total)
    → Holds mem (base + meta_size) (payload m)
unfolding record_bytes
payload-Holds mem base m total held =
    rw (length-pack (meta_fields (fill_meta m total))) at
      (Holds-append_right mem base (pack (meta_fields (fill_meta m total))) (payload m) held)

-- Where the texts stand, and the wire region behind them.
record Texts (mem : Mem) (p : ℕ) (m : Msg) : Type 0 where
  at_category : load mem p (length m.category) ≡ m.category
  at_file : load mem (p + length m.category) (length m.file) ≡ m.file
  at_func : load mem (p + length m.category + length m.file) (length m.func) ≡ m.func
  at_msg : load mem (p + length m.category + length m.file + length m.func) (length m.msg) ≡ m.msg
  at_wire :
      load mem
        (p + length m.category + length m.file + length m.func + length m.msg)
        (length m.fields_wire)
      ≡ m.fields_wire

payload-Texts : (mem : Mem) (p : ℕ) (m : Msg) → Holds mem p (payload m) → Texts mem p m
payload-Texts mem p m h0 =
    let h1 =
      Holds-append_right mem p m.category (m.file ++ (m.func ++ (m.msg ++ m.fields_wire))) h0 in
    let h2 = Holds-append_right mem _ m.file (m.func ++ (m.msg ++ m.fields_wire)) h1 in
    let h3 = Holds-append_right mem _ m.func (m.msg ++ m.fields_wire) h2 in
    let h4 = Holds-append_right mem _ m.msg m.fields_wire h3 in
    record {
      at_category = load_text mem _ m.category _ h0;
      at_file = load_text mem _ m.file _ h1;
      at_func = load_text mem _ m.func _ h2;
      at_msg = load_text mem _ m.msg _ h3;
      at_wire = load-Holds mem _ m.fields_wire h4;
    }

-- The bytes behind the wire region, up to the record's length.
wire_padding : Mem → ℕ → Msg → ℕ → Bytes
wire_padding mem u m total =
    if ltb 0 m.field_count
    then load mem (u + length m.fields_wire) (total - meta_size - length (payload m))
    else []

wire-Holds :
    (mem : Mem) (base : ℕ) (m : Msg) (total : ℕ) {u : ℕ}
    → IsFit m
    → meta_size + length (payload m) ≤ total
    → total < 2 ^ 32
    → u ≡ base + meta_size + length m.category + length m.file + length m.func + length m.msg
    → load mem u (length m.fields_wire) ≡ m.fields_wire
    → (if ltb 0 m.field_count then load mem u ((total + 2 ^ 32 - (u - base)) % 2 ^ 32) else [])
      ≡ m.fields_wire ++ wire_padding mem u m total
unfolding wire_padding
wire-Holds mem base m total {u} fit fits h e held = elim (Bool-cases (ltb 0 m.field_count)) [
  | inl some_fields ↦ rw some_fields (
      let n : (total + 2 ^ 32 - (u - base)) % 2 ^ 32
          ≡ length m.fields_wire + (total - meta_size - length (payload m)) =
        omega (arith, length-payload m) in
      rw n (load-append mem u (length m.fields_wire) _ ∙ rw held))
  | inr no_fields ↦ rw no_fields (
      let zero_count : m.field_count ≡ 0 = omega (arith, ltb→le 0 m.field_count no_fields) in
      rw (fit.no_wire zero_count))
]

-- The header of a record that fits, field by field.
pub record Describes (meta : Meta) (m : Msg) (total : ℕ) : Type 0 where
  pub level_is : rec_level meta.level_flags ≡ m.level
  pub ordinary : is_pad meta.level_flags ≡ false
  pub tid_is : meta.tid ≡ m.tid
  pub realtime_is : meta.realtime_ns ≡ m.realtime_ns
  pub mono_is : meta.mono_us ≡ m.mono_us
  pub line_is : meta.line ≡ m.line
  pub count_is : meta.field_count ≡ m.field_count
  pub category_len_is : meta.category_len ≡ length m.category
  pub file_len_is : meta.file_len ≡ length m.file
  pub func_len_is : meta.func_len ≡ length m.func
  pub msg_len_is : meta.msg_len ≡ length m.msg
  pub total_is : meta.total_len ≡ total

fill_meta-Describes : (m : Msg) (total : ℕ) → IsFit m → Describes (fill_meta m total) m total
unfolding fill_meta
fill_meta-Describes m total fit = record {
  level_is = omega arith;
  ordinary = ground arith;
  tid_is = refl;
  realtime_is = refl;
  mono_is = refl;
  line_is = refl;
  count_is = refl;
  category_len_is = omega arith;
  file_len_is = omega arith;
  func_len_is = omega arith;
  msg_len_is = refl;
  total_is = refl;
}

pub read_meta-Describes :
    (mem : Mem) (base : ℕ) (m : Msg) (total : ℕ)
    → IsFit m
    → total < 2 ^ 32
    → Holds mem base (record_bytes m total)
    → Describes (read_meta mem base) m total
read_meta-Describes mem base m total fit h held =
    rw (read_meta-record mem base m total fit h held) (fill_meta-Describes m total fit)

-- A view of a record that stands in memory delivers what the producer put.
pub view_at-Delivers :
    (mem : Mem) (base : ℕ) (m : Msg) (total : ℕ)
    → IsFit m
    → meta_size + length (payload m) ≤ total
    → total < 2 ^ 32
    → Holds mem base (record_bytes m total)
    → Delivers (view_at mem base) m × ((view_at mem base).meta.total_len ≡ total)
unfolding view_at
view_at-Delivers mem base m total fit fits h held =
    let d = read_meta-Describes mem base m total fit h held in
    let t = payload-Texts mem (base + meta_size) m (payload-Holds mem base m total held) in
    (
      record {
        level_is = d.level_is;
        ordinary = d.ordinary;
        tid_is = d.tid_is;
        realtime_is = d.realtime_is;
        mono_is = d.mono_is;
        line_is = d.line_is;
        count_is = d.count_is;
        category_is = rw d.category_len_is t.at_category;
        file_is = rw (d.category_len_is, d.file_len_is) t.at_file;
        func_is = rw (d.category_len_is, d.file_len_is, d.func_len_is) t.at_func;
        msg_is = rw (d.category_len_is, d.file_len_is, d.func_len_is, d.msg_len_is) t.at_msg;
        wire_is = (
          wire_padding mem
              (base + meta_size + length m.category + length m.file + length m.func + length m.msg)
              m total,
          rw (d.count_is, d.total_is, d.category_len_is, d.file_len_is, d.func_len_is, d.msg_len_is)
              (wire-Holds mem base m total fit fits h refl t.at_wire),
        );
      },
      d.total_is,
    )
