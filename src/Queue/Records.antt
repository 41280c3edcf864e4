-- ===== src/Queue/Records.antt =====
-- src/output/sink_queue.c, `sq_decode` on a packed record.
use hpulogc.Prelude.{
  ℕ, ◌+◌, ◌%◌, ◌^◌, ◌≤◌, ◌<◌, ◌≡◌, refl, ap, ◌∙◌, List, [], ◌∷◌, ◌++◌, some, arith, length, ℤ, pos,
  negsuc, low_byte, clipped_u16, IsInt8, signed_byte-low_byte,
}
use native.Mathlib.Nat.{mod-eq_of_lt}
use hpulogc.Memory.{Mem, load, word, pack}
use hpulogc.Memory
use hpulogc.Memory.Regions.{Holds, load-Holds, Holds-append_left, Holds-append_right}
use hpulogc.Memory.Words.{AllFit, values, unpack-pack, length-pack}
use hpulogc.Fields.Wire
use hpulogc.Fields.Serialize.{max_fields}
use hpulogc.Queue.State.{Event, header_size, header_fields, header_widths, payload, packed}
use hpulogc.Queue.Worker.{event_at, decode}

-- An event whose numbers and lengths fit the packed header, with fields that are those of its region.
pub record Fits (e : Event) : Type 0 where
  pub level_fits : IsInt8 e.level
  pub line_fits : length e.line < 2 ^ 16
  pub msg_fits : length e.msg < 2 ^ 16
  pub category_fits : length e.category < 2 ^ 16
  pub file_fits : length e.file < 2 ^ 16
  pub func_fits : length e.func < 2 ^ 16
  pub wire_fits : length e.fields_wire < 2 ^ 16
  pub count_fits : e.field_count < 2 ^ 16
  pub src_line_fits : pos (clipped_u16 e.src_line) ≡ e.src_line
  pub realtime_fits : e.realtime_ns < 2 ^ 64
  pub mono_fits : e.mono_us < 2 ^ 64
  pub tid_fits : e.tid < 2 ^ 64
  pub fields_are : Wire.unpack e.field_count max_fields e.fields_wire ≡ e.fields
  pub count_is : length e.fields ≡ e.field_count

pub low_byte_bound : (i : ℤ) → low_byte i < 256
low_byte_bound (pos n) = omega arith
low_byte_bound (negsuc n) = omega arith

pub clipped_bound : (i : ℤ) → clipped_u16 i < 2 ^ 16
clipped_bound (pos n) = omega arith
clipped_bound (negsuc n) = omega arith

header_fit : (need : ℕ) (e : Event) → Fits e → AllFit (header_fields need e)
header_fit need e f = omega (
  arith,
  low_byte_bound e.level,
  clipped_bound e.src_line,
  f.realtime_fits,
  f.mono_fits,
  f.tid_fits,
)

-- The header's words, without what the widths would cut off.
abbrev words : ℕ → Event → List ℕ
words need e =
    need
    ∷ low_byte e.level
    ∷ 0
    ∷ length e.line
    ∷ length e.msg
    ∷ length e.category
    ∷ length e.file
    ∷ length e.func
    ∷ e.field_count
    ∷ length e.fields_wire
    ∷ clipped_u16 e.src_line
    ∷ 0
    ∷ e.realtime_ns
    ∷ e.mono_us
    ∷ e.tid
    ∷ []

uncut : (w n : ℕ) → n < w → n % w ≡ n
uncut w n h = mod-eq_of_lt h

values-header_fields :
    (need : ℕ) (e : Event) → need < 2 ^ 32 → Fits e → values (header_fields need e) ≡ words need e
values-header_fields need e n f =
    rw
      (
        uncut (2 ^ 32) need n,
        uncut (2 ^ 16) (length e.line) f.line_fits,
        uncut (2 ^ 16) (length e.msg) f.msg_fits,
        uncut (2 ^ 16) (length e.category) f.category_fits,
        uncut (2 ^ 16) (length e.file) f.file_fits,
        uncut (2 ^ 16) (length e.func) f.func_fits,
        uncut (2 ^ 16) (length e.fields_wire) f.wire_fits,
        uncut (2 ^ 16) e.field_count f.count_fits,
      )
      refl

module _ (mem : Mem) (off : ℕ) (need : ℕ) (e : Event) (n : need < 2 ^ 32) (f : Fits e)
    (held : Holds mem off (packed need e)) where
  header_at : Memory.unpack mem off header_widths ≡ words need e
  unfolding packed
  header_at =
      unpack-pack (header_fields need e) mem off (header_fit need e f)
        (Holds-append_left mem off (pack (header_fields need e)) (payload e) held)
      ∙ values-header_fields need e n f

  payload_at : Holds mem (off + header_size) (payload e)
  unfolding packed
  payload_at =
      rw (length-pack (header_fields need e)) at
        (Holds-append_right mem off (pack (header_fields need e)) (payload e) held)

  event_at-packed : event_at mem (off + header_size) (Memory.unpack mem off header_widths) ≡ e
  unfolding event_at
  event_at-packed =
      let p = off + header_size in
      let h0 = payload_at in
      let h1 =
        Holds-append_right mem p e.line
          (e.msg ++ (e.category ++ (e.file ++ (e.func ++ e.fields_wire)))) h0 in
      let h2 =
        Holds-append_right mem _ e.msg (e.category ++ (e.file ++ (e.func ++ e.fields_wire))) h1 in
      let h3 = Holds-append_right mem _ e.category (e.file ++ (e.func ++ e.fields_wire)) h2 in
      let h4 = Holds-append_right mem _ e.file (e.func ++ e.fields_wire) h3 in
      let h5 = Holds-append_right mem _ e.func e.fields_wire h4 in
      let w = load-Holds mem _ e.fields_wire h5 in
      let fs = ap (Wire.unpack e.field_count max_fields) w ∙ f.fields_are in
      rw header_at (λ i. record {
        level = signed_byte-low_byte e.level f.level_fits i;
        line = load-Holds mem _ e.line (Holds-append_left mem _ e.line _ h0) i;
        msg = load-Holds mem _ e.msg (Holds-append_left mem _ e.msg _ h1) i;
        category = load-Holds mem _ e.category (Holds-append_left mem _ e.category _ h2) i;
        file = load-Holds mem _ e.file (Holds-append_left mem _ e.file _ h3) i;
        func = load-Holds mem _ e.func (Holds-append_left mem _ e.func _ h4) i;
        src_line = f.src_line_fits i;
        realtime_ns = e.realtime_ns;
        mono_us = e.mono_us;
        tid = e.tid;
        fields_wire = w i;
        field_count = (ap length fs ∙ f.count_is) i;
        fields = fs i;
      })

  pub rec_len-packed : word mem off 4 ≡ need
  unfolding Memory.unpack
  rec_len-packed = ap first header_at
    where
      first : List ℕ → ℕ
      first [] = 0
      first (x ∷ xs) = x

  -- `sq_decode` reads the event and the length of its record.
  pub decode-packed :
      (cap : ℕ) → header_size ≤ need → off + need ≤ cap → decode cap mem off ≡ some (e, need)
  unfolding decode
  decode-packed cap l b = rw (rec_len-packed, event_at-packed) (ground arith)
