-- ===== src/Fields/Wire.antt =====
-- src/format/format.c, `hpu_fields_unpack`, and the spans of the wire region.
use hpulogc.Prelude.{
  ℕ, zero, suc, ◌+◌, ◌-◌, ◌^◌, ◌≤◌, ◌<◌, ◌≡◌, refl, ap, ◌∙◌, ◌||◌, List, [], ◌∷◌, ◌++◌,
  if◌then◌else◌, ltb, ◌==◌, arith, length, length-append, take, drop, get_or, replicate,
  take-append_length, drop-append_length, drop-add, Bytes,
}
use mathlib.Core.List.{append_assoc}
use hpulogc.Memory.{le_bytes, le_value}

-- One field of the region: its key, its type tag and the bytes of its value.
pub record Entry : Type 0 where
  pub key : Bytes
  pub tag : ℕ
  pub value : Bytes

-- `memcpy(&x, wire, 2)`
unfoldable pub u16_at : ℕ → Bytes → ℕ
u16_at off wire = le_value (take 2 (drop off wire))

abbrev pub key_len : Bytes → ℕ
key_len wire = u16_at 0 wire

abbrev pub val_len : Bytes → ℕ
val_len wire = u16_at 4 wire

-- A value as it is read: `v.str`, an address in the region and a length, or the bytes of another type in
-- the 16 bytes of the union, which are zero behind them.
pub data ReadValue : Type 0 where
  text_at : ℕ → ℕ → ReadValue
  copied : Bytes → ReadValue

-- A field as it is read: its key is an address in the region, without a length and without a NUL
-- behind the key. An address is the distance from the start of the region.
pub record Row : Type 0 where
  pub key_at : ℕ
  pub tag : ℕ
  pub value : ReadValue

abbrev pub union_size : ℕ
union_size = 16

abbrev pub zero_padded : Bytes → Bytes
zero_padded value = value ++ replicate (union_size - length value) 0

abbrev pub read_value : ℕ → ℕ → Bytes → ReadValue
read_value at tag value = if tag == 4 then text_at at (length value) else copied (zero_padded value)

abbrev pub value_bytes : Bytes → Bytes
value_bytes wire = take (val_len wire) (drop (6 + key_len wire) wire)

-- The field at `off`, where `wire` is the region from there on and is long enough for it.
unfoldable pub row_at : ℕ → Bytes → Row
row_at off wire = record {
  key_at = off + 6;
  tag = get_or wire 2 0;
  value = read_value (off + 6 + key_len wire) (get_or wire 2 0) (value_bytes wire);
}

abbrev pub span_len : Bytes → ℕ
span_len wire = 6 + key_len wire + val_len wire

-- `count` bounds the loop, and `max` is the room in `out`. The region that is left stands for
-- `wire + off` and `len - off`.
unfoldable pub unpack_from : ℕ → ℕ → ℕ → Bytes → List Row
unpack_from zero max off wire = []
unpack_from (suc i) max off wire =
    let rest = unpack_from i (max - 1) (off + span_len wire) (drop (span_len wire) wire) in
    if max == 0 || ltb (length wire) 6
    then []
    else if ltb (length wire) (span_len wire)
    then []
    else row_at off wire ∷ rest

abbrev pub unpack : ℕ → ℕ → Bytes → List Row
unpack count max wire = unpack_from count max 0 wire

-- The bytes of one field.
unfoldable pub span : Entry → Bytes
span e =
    le_bytes 2 (length e.key) ++ (e.tag ∷ 0 ∷ (le_bytes 2 (length e.value) ++ (e.key ++ e.value)))

abbrev pub spans : List Entry → Bytes
spans [] = []
spans (e ∷ es) = span e ++ spans es

-- The lengths fit their 16 bits.
abbrev pub Fits : Entry → Type 0
Fits e = (length e.key < 2 ^ 16) × (length e.value < 2 ^ 16)

pub length-span : (e : Entry) → length (span e) ≡ 6 + length e.key + length e.value
unfolding span le_bytes
length-span e = omega (arith, length-append e.key e.value)

-- How a field is read whose span begins at `off`.
abbrev pub row_of : ℕ → Entry → Row
row_of off e = record {
  key_at = off + 6;
  tag = e.tag;
  value = read_value (off + 6 + length e.key) e.tag e.value;
}

abbrev pub rows : ℕ → List Entry → List Row
rows off [] = []
rows off (e ∷ es) = row_of off e ∷ rows (off + (6 + length e.key + length e.value)) es

module _ (e : Entry) (rest : Bytes) where
  pub key_len-span : length e.key < 2 ^ 16 → key_len (span e ++ rest) ≡ length e.key
  unfolding u16_at span le_bytes le_value
  key_len-span h = omega arith

  pub val_len-span : length e.value < 2 ^ 16 → val_len (span e ++ rest) ≡ length e.value
  unfolding u16_at span le_bytes le_value
  val_len-span h = omega arith

  pub key_part : take (length e.key) (drop 6 (span e ++ rest)) ≡ e.key
  unfolding span le_bytes
  key_part = rw append_assoc (take-append_length e.key (e.value ++ rest))

  tag_part : get_or (span e ++ rest) 2 0 ≡ e.tag
  unfolding span le_bytes
  tag_part = refl

  pub value_part : take (length e.value) (drop (6 + length e.key) (span e ++ rest)) ≡ e.value
  unfolding span le_bytes
  value_part = rw (drop-add 6 (length e.key)) (
      rw append_assoc
        (rw (drop-append_length e.key (e.value ++ rest)) (take-append_length e.value rest)))

  row_at-span : (off : ℕ) → Fits e → row_at off (span e ++ rest) ≡ row_of off e
  unfolding row_at
  row_at-span off fit =
      rw (key_len-span fit.0, val_len-span fit.1)
        (λ i. record {
          key_at = off + 6;
          tag = tag_part i;
          value = read_value (off + 6 + length e.key) (tag_part i) (value_part i);
        })

  pub drop-span : drop (6 + length e.key + length e.value) (span e ++ rest) ≡ rest
  drop-span = rw (← length-span e) (drop-append_length (span e) rest)

abbrev pub AllFit : List Entry → Type 0
AllFit [] = Unit
AllFit (e ∷ es) = Fits e × AllFit es

unpack-span :
    (i max off : ℕ) (e : Entry) (rest : Bytes)
    → Fits e
    → 0 < max
    → unpack_from (suc i) max off (span e ++ rest)
      ≡ row_of off e ∷ unpack_from i (max - 1) (off + (6 + length e.key + length e.value)) rest
unfolding unpack_from
unpack-span i max off e rest fit room =
    let total : length (span e ++ rest) ≡ 6 + length e.key + length e.value + length rest =
      length-append (span e) rest ∙ ap (λ k. k + length rest) (length-span e) in
    rw
      (
        key_len-span e rest fit.0,
        val_len-span e rest fit.1,
        row_at-span e rest off fit,
        drop-span e rest,
        total,
      )
      (ground arith)

-- The region of some fields, with whatever stands behind it, is read back as these fields.
pub unpack_from-spans :
    (es : List Entry) (max off : ℕ) (behind : Bytes)
    → AllFit es
    → length es ≤ max
    → unpack_from (length es) max off (spans es ++ behind) ≡ rows off es
unpack_from-spans [] max off behind fit room = unfold unpack_from in refl
unpack_from-spans (e ∷ es) max off behind fit room = rw (append_assoc (span e) (spans es) behind) (
    unpack-span (length es) max off e (spans es ++ behind) fit.0 (omega arith)
    ∙ ap (◌∷◌ (row_of off e)) (
        unpack_from-spans es (max - 1) (off + (6 + length e.key + length e.value)) behind fit.1
          (omega arith)))

pub unpack-spans :
    (es : List Entry) (max : ℕ) (behind : Bytes)
    → AllFit es
    → length es ≤ max
    → unpack (length es) max (spans es ++ behind) ≡ rows 0 es
unpack-spans es max behind fit room = unpack_from-spans es max 0 behind fit room
