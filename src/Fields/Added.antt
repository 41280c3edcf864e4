-- ===== src/Fields/Added.antt =====
-- src/format/format.c: which fields `hpu_fields_serialize` keeps, and what encoding them adds.
use hpulogc.Prelude.{
  ℕ, ◌+◌, ◌≤◌, ◌<◌, ◌≡◌, refl, ap, sym, Bool, true, false, ◌⊎◌, List, [], ◌∷◌, ◌++◌, none, some,
  if◌then◌else◌, ◌||◌, ltb, leb, ltb→le, arith, length, length-append, length-take, take, Bytes,
  min,
}
use mathlib.Core.Option.{some-injective}
use mathlib.Core.List.{append-nil}
use hpulogc.Memory.Words.{length-le_bytes}
use hpulogc.Fields.Wire.{Entry, span, spans, length-span, AllFit}
use hpulogc.Fields.Serialize.{
  Value, i64, u64, f64, flag, text, invalid, Field, max_fields, max_key_len, max_str_len, Encoded,
  encode, State, dropped_one, count_cut, entry_of, serialize_one, serialize_all,
}

-- The field has a key of at most 64 bytes and a value of a known type, which is encoded to `v`.
pub record Encodes (f : Field) (key : Bytes) (v : Encoded) : Type 0 where
  pub key_is : f.key ≡ some key
  pub short : length key ≤ max_key_len
  pub value_is : encode f.value ≡ some v

-- The field is left out by itself.
abbrev pub Unfit : Field → Type 0
Unfit f =
    (f.key ≡ none)
    ⊎ ((key : Bytes) × (f.key ≡ some key) × (max_key_len < length key))
    ⊎ (encode f.value ≡ none)

abbrev pub needs : Bytes → Encoded → ℕ
needs key v = 6 + length key + length v.bytes

abbrev pub cuts : Encoded → ℕ
cuts v = if v.cut then 1 else 0

-- From `n` kept fields and `len` bytes on, in a region with room for `room` bytes, the fields are kept as
-- these entries, and so many drops are counted: an unfit field is left out and counted; a cut text is
-- counted; and from the first field on that there is no room for, or when 16 are kept, every field is
-- left out and counted.
pub data Keeps (room : ℕ) : ℕ → ℕ → List Field → List Entry → ℕ → Type 0 where
  all_done : {n len : ℕ} → Keeps room n len [] [] 0
  keep :
      {n len drops : ℕ} {f : Field} {fs : List Field} {es : List Entry} (key : Bytes) (v : Encoded)
      → Encodes f key v
      → n < max_fields
      → len + needs key v ≤ room
      → Keeps room (n + 1) (len + needs key v) fs es drops
      → Keeps room n len (f ∷ fs) (entry_of key v ∷ es) (cuts v + drops)
  leave :
      {n len drops : ℕ} {f : Field} {fs : List Field} {es : List Entry}
      → n < max_fields
      → Unfit f
      → Keeps room n len fs es drops
      → Keeps room n len (f ∷ fs) es (1 + drops)
  no_count :
      {n len : ℕ} {f : Field} {fs : List Field}
      → max_fields ≤ n
      → Keeps room n len (f ∷ fs) [] (length (f ∷ fs))
  no_room :
      {n len : ℕ} {f : Field} {fs : List Field} (key : Bytes) (v : Encoded)
      → n < max_fields
      → Encodes f key v
      → room < len + needs key v
      → Keeps room n len (f ∷ fs) [] (cuts v + length (f ∷ fs))

bytes_of : {a x : Encoded} → some a ≡ some x → a.bytes ≡ x.bytes
bytes_of {a} {x} h = ap (λ (e : Encoded). e.bytes) (some-injective a x h)

text_bound :
    (s : Bytes) (x : Encoded) (b : Bool)
    → ltb max_str_len (length s) ≡ b
    → (if b
        then some (record { tag = 4; bytes = take max_str_len s; cut = true })
        else some (record { tag = 4; bytes = s; cut = false }))
      ≡ some x
    → length x.bytes ≤ max_str_len
text_bound s x true e h = rw (← bytes_of h) (omega (arith, length-take 256 s))
text_bound s x false e h = rw (← bytes_of h) (ltb→le max_str_len (length s) e)

encode_bound : (v : Value) (x : Encoded) → encode v ≡ some x → length x.bytes ≤ max_str_len
unfolding encode
encode_bound (i64 n) x h = rw (← bytes_of h) (omega (arith, length-le_bytes 8 n))
encode_bound (u64 n) x h = rw (← bytes_of h) (omega (arith, length-le_bytes 8 n))
encode_bound (f64 n) x h = rw (← bytes_of h) (omega (arith, length-le_bytes 8 n))
encode_bound (flag n) x h = rw (← bytes_of h) (omega (arith, length-le_bytes 1 n))
encode_bound (text none) x h = rw (← bytes_of h) (omega arith)
encode_bound (text (some s)) x h = text_bound s x (ltb max_str_len (length s)) refl h
encode_bound invalid x h = cc

pub Keeps-AllFit :
    {room n len drops : ℕ} {fs : List Field} {es : List Entry}
    → Keeps room n len fs es drops
    → AllFit es
Keeps-AllFit all_done = tt
Keeps-AllFit (keep {f = f} key v e c r k) =
    ((omega (arith, e.short), omega (arith, encode_bound f.value v e.value_is)), Keeps-AllFit k)
Keeps-AllFit (leave c u k) = Keeps-AllFit k
Keeps-AllFit (no_count c) = tt
Keeps-AllFit (no_room key v c e r) = tt

-- The kept fields are at most 16 and stay within the room.
pub Keeps-bounds :
    {room n len drops : ℕ} {fs : List Field} {es : List Entry}
    → Keeps room n len fs es drops
    → n ≤ max_fields
    → len ≤ room
    → (n + length es ≤ max_fields) × (len + length (spans es) ≤ room)
Keeps-bounds all_done a b = (omega arith, omega arith)
Keeps-bounds (keep {es = es} key v e c r k) a b =
    let (x, y) = Keeps-bounds k (omega (arith, c)) r in
    (
      omega (arith, x),
      omega (
        arith,
        y,
        length-append (span (entry_of key v)) (spans es),
        length-span (entry_of key v),
      ),
    )
Keeps-bounds (leave c u k) a b = Keeps-bounds k a b
Keeps-bounds (no_count c) a b = (omega arith, omega arith)
Keeps-bounds (no_room key v c e r) a b = (omega arith, omega arith)

-- What the loop makes of a state: these entries behind the others, and so many more drops.
pub record Ends (s s' : State) (es : List Entry) (drops : ℕ) : Type 0 where
  pub grows : s'.out ≡ s.out ++ spans es
  pub counts : s'.cnt ≡ s.cnt + length es
  pub drop_is : s'.drop ≡ s.drop + drops

module _ (budget cap : ℕ) where
  -- When 16 are kept or the budget was hit, every field is counted as dropped.
  pub full_drops :
      (fs : List Field) (s : State)
      → (leb max_fields s.cnt || s.budget_hit) ≡ true
      → Ends s (serialize_all budget cap fs s) [] (length fs)
  unfolding serialize_all serialize_one
  full_drops [] s h = record {
    grows = sym (append-nil s.out);
    counts = omega arith;
    drop_is = omega arith;
  }
  full_drops (f ∷ fs) s h =
      let r = full_drops fs (record s { drop = s.drop + 1 }) h in
      rw (serialize_all, serialize_one, h)
        (record { grows = r.grows; counts = r.counts; drop_is = omega (arith, r.drop_is) })

  -- What the loop makes of the fields from a state on.
  abbrev pub Outcome : List Field → State → Type 0
  Outcome fs s =
      (es : List Entry) × (drops : ℕ) × Keeps (min budget cap) s.cnt (length s.out) fs es drops
      × Ends s (serialize_all budget cap fs s) es drops

  pub after_drop :
      (f : Field) (fs : List Field) (s : State)
      → s.cnt < max_fields
      → Unfit f
      → serialize_one budget cap f s ≡ dropped_one s
      → Outcome fs (dropped_one s)
      → Outcome (f ∷ fs) s
  unfolding serialize_all
  after_drop f fs s c u e (es, drops, k, r) = (
    es,
    1 + drops,
    leave c u k,
    rw e (record { grows = r.grows; counts = r.counts; drop_is = omega (arith, r.drop_is) }),
  )

  pub cut_state :
      (b : Bool) (s : State)
      → ((count_cut b s).drop ≡ s.drop + (if b then 1 else 0))
        × ((count_cut b s).out ≡ s.out)
        × ((count_cut b s).cnt ≡ s.cnt)
  cut_state true s = (refl, refl, refl)
  cut_state false s = (omega arith, refl, refl)
