-- ===== src/Fields/Loop.antt =====
-- src/format/format.c, `hpu_fields_serialize`: what the loop over the fields makes of them.
use hpulogc.Prelude.{
  ℕ, ◌+◌, ◌≤◌, ◌<◌, ◌≡◌, refl, ap, ◌∙◌, sym, Bool, true, false, Bool-cases, inl, inr, List, [], ◌∷◌,
  ◌++◌, some, Option-cases, if◌then◌else◌, ◌||◌, ltb, leb, ltb→le, ltb→lt, arith, length,
  length-append, Bytes,
}
use mathlib.Core.List.{append-nil, append_assoc}
use hpulogc.Fields.Wire.{span, spans, length-span}
use hpulogc.Fields.Serialize.{
  Field, max_fields, max_key_len, Encoded, encode, State, dropped_one, count_cut, entry_of,
  append_field, append_value, append_key, serialize_one, serialize_all,
}
use hpulogc.Fields.Added.{
  Encodes, needs, cuts, all_done, keep, no_count, no_room, full_drops, Outcome, after_drop,
  cut_state,
}

module _ (budget cap : ℕ) where
  abbrev Later : List Field → Type 0
  Later fs = (s : State) → s.budget_hit ≡ false → s.cnt ≤ max_fields → Outcome budget cap fs s

  one_key :
      (f : Field) (s : State)
      → (leb max_fields s.cnt || s.budget_hit) ≡ false
      → serialize_one budget cap f s ≡ append_key budget cap f.key f.value s
  unfolding serialize_one
  one_key f s h = rw h refl

  -- There is room: the field is kept.
  kept_one :
      (f : Field) (fs : List Field) (s : State) (key : Bytes) (v : Encoded)
      → Encodes f key v
      → s.budget_hit ≡ false
      → s.cnt < max_fields
      → serialize_one budget cap f s ≡ append_field budget cap key v s
      → (ltb budget (length s.out + needs key v) || ltb cap (length s.out + needs key v)) ≡ false
      → Later fs
      → Outcome budget cap (f ∷ fs) s
  unfolding serialize_all append_field
  kept_one f fs s key v e h c eq fits later =
      let (d, o, n) = cut_state budget cap v.cut s in
      let s' : State = record (count_cut v.cut s) {
        out = s.out ++ span (entry_of key v);
        cnt = s.cnt + 1;
      } in
      let hit : s'.budget_hit ≡ false = still v.cut in
      let (es, drops, k, r) = later s' hit (omega (arith, c)) in
      let l : length (s.out ++ span (entry_of key v)) ≡ length s.out + needs key v =
        omega (arith, length-append s.out (span (entry_of key v)), length-span (entry_of key v)) in
      (
        entry_of key v ∷ es,
        cuts v + drops,
        keep key v e c (ground arith) (rw l at k),
        rw (eq, fits)
            (record {
              grows = r.grows ∙ append_assoc s.out (span (entry_of key v)) (spans es);
              counts = omega (arith, r.counts);
              drop_is = omega (arith, r.drop_is, d);
            }),
      )
    where
      still : (b : Bool) → (count_cut b s).budget_hit ≡ false
      still true = h
      still false = h

  -- There is no room: the field and all behind it are left out.
  last_one :
      (f : Field) (fs : List Field) (s : State) (key : Bytes) (v : Encoded)
      → Encodes f key v
      → s.cnt < max_fields
      → serialize_one budget cap f s ≡ append_field budget cap key v s
      → (ltb budget (length s.out + needs key v) || ltb cap (length s.out + needs key v)) ≡ true
      → Outcome budget cap (f ∷ fs) s
  unfolding serialize_all append_field
  last_one f fs s key v e c eq over =
      let (d, o, n) = cut_state budget cap v.cut s in
      let s' : State = record (count_cut v.cut s) {
        budget_hit = true;
        drop = (count_cut v.cut s).drop + 1;
      } in
      let r = full_drops budget cap fs s' (or_true (leb max_fields (count_cut v.cut s).cnt)) in
      (
        [],
        cuts v + length (f ∷ fs),
        no_room key v c e (ground arith),
        rw (eq, over)
            (record {
              grows = r.grows ∙ ap (λ z. z ++ []) o;
              counts = omega (arith, r.counts, n);
              drop_is = omega (arith, r.drop_is, d);
            }),
      )
    where
      or_true : (b : Bool) → (b || true) ≡ true
      or_true true = refl
      or_true false = refl

  with_value :
      (f : Field) (fs : List Field) (s : State) (key : Bytes)
      → f.key ≡ some key
      → length key ≤ max_key_len
      → s.budget_hit ≡ false
      → s.cnt < max_fields
      → serialize_one budget cap f s ≡ append_value budget cap key (encode f.value) s
      → Later fs
      → Outcome budget cap (f ∷ fs) s
  with_value f fs s key k l h c eq later = elim (Option-cases (encode f.value)) [
    | inl n ↦
        after_drop budget cap f fs s c (inr (inr n))
          (eq ∙ ap (λ o. append_value budget cap key o s) n)
          (later (dropped_one s) h (omega (arith, c)))
    | inr (v, x) ↦
        let e : Encodes f key v = record { key_is = k; short = l; value_is = x } in
        let eq' = eq ∙ ap (λ o. append_value budget cap key o s) x in
        elim (Bool-cases
          (ltb budget (length s.out + needs key v) || ltb cap (length s.out + needs key v))) [
            | inl over ↦ last_one f fs s key v e c eq' over
            | inr fits ↦ kept_one f fs s key v e h c eq' fits later
          ]
  ]

  with_key :
      (f : Field) (fs : List Field) (s : State)
      → s.budget_hit ≡ false
      → s.cnt < max_fields
      → serialize_one budget cap f s ≡ append_key budget cap f.key f.value s
      → Later fs
      → Outcome budget cap (f ∷ fs) s
  with_key f fs s h c eq later = elim (Option-cases f.key) [
    | inl n ↦
        after_drop budget cap f fs s c (inl n) (eq ∙ ap (λ o. append_key budget cap o f.value s) n)
          (later (dropped_one s) h (omega (arith, c)))
    | inr (key, k) ↦
        let eq' = eq ∙ ap (λ o. append_key budget cap o f.value s) k in
        elim (Bool-cases (ltb max_key_len (length key))) [
          | inl long ↦
              after_drop budget cap f fs s c
                (inr (inl (key, k, ltb→lt max_key_len (length key) long)))
                (eq'
                  ∙ ap
                      (λ b.
                        if b then dropped_one s else append_value budget cap key (encode f.value) s)
                      long)
                (later (dropped_one s) h (omega (arith, c)))
          | inr short ↦
              with_value f fs s key k (ltb→le max_key_len (length key) short) h c
                (eq'
                  ∙ ap
                      (λ b.
                        if b then dropped_one s else append_value budget cap key (encode f.value) s)
                      short)
                later
        ]
  ]

  pub serialize_all-Outcome : (fs : List Field) → Later fs
  unfolding serialize_all
  serialize_all-Outcome [] = λ s h c. (
    [],
    0,
    all_done,
    record { grows = sym (append-nil s.out); counts = omega arith; drop_is = omega arith },
  )
  serialize_all-Outcome (f ∷ fs) = λ s h c.
      elim (Bool-cases (leb max_fields s.cnt || s.budget_hit)) [
        | inl full ↦ (
          [],
          length (f ∷ fs),
          no_count (sixteen s h full),
          full_drops budget cap (f ∷ fs) s full,
        )
        | inr more ↦ with_key f fs s h (below s more) (one_key f s more) (serialize_all-Outcome fs)
      ]
    where
      sixteen :
          (s : State)
          → s.budget_hit ≡ false
          → (leb max_fields s.cnt || s.budget_hit) ≡ true
          → max_fields ≤ s.cnt
      sixteen s h full = ground arith

      below : (s : State) → (leb max_fields s.cnt || s.budget_hit) ≡ false → s.cnt < max_fields
      below s more = ground arith
