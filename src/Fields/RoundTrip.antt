-- ===== src/Fields/RoundTrip.antt =====
-- src/format/format.c: `hpu_fields_serialize`, then `hpu_fields_unpack`.
use hpulogc.Prelude.{
  ℕ, zero, suc, ◌%◌, ◌≤◌, ◌≡◌, ◌≢◌, refl, ap, ◌∙◌, sym, Bool-cases, inl, inr, ◌⊎◌, List, [], ◌∷◌,
  ◌++◌, some, ◌&&◌, not, ◌-◌, ltb, ◌==◌, arith, length, length-append, Bytes, min,
}
use mathlib.Core.Option.{some-injective}
use mathlib.Core.List.{append-nil, append_assoc}
use hpulogc.Fields.Wire.{Entry, spans, unpack, unpack-spans, rows}
use hpulogc.Fields.Reads.{ReadsAt, ReadsAt-spans}
use hpulogc.Fields.Serialize.{Field, max_fields, serialize_all, pad_to_8, start, serialize}
use hpulogc.Fields.Added.{Keeps, Keeps-AllFit, Keeps-bounds}
use hpulogc.Fields.Loop.{serialize_all-Outcome}

-- The padding is at most what makes the length a multiple of 8, and stops at `cap`.
pad_to_8_lem :
    (fuel cap : ℕ) (out : Bytes)
    → length out ≤ cap
    → (8 - length out % 8) % 8 ≤ fuel
    → (behind : Bytes) × (pad_to_8 fuel cap out ≡ out ++ behind)
      × (length (pad_to_8 fuel cap out) ≤ cap)
      × ((length (pad_to_8 fuel cap out) % 8 ≡ 0) ⊎ (length (pad_to_8 fuel cap out) ≡ cap))
unfolding pad_to_8
pad_to_8_lem zero cap out h f = ([], sym (append-nil out), h, inl (omega arith))
pad_to_8_lem (suc fuel) cap out h f =
    elim (Bool-cases (not (length out % 8 == 0) && ltb (length out) cap)) [
      | inl go ↦ rw go (
          let n = length-append out (0 ∷ []) in
          let ne : length out % 8 ≢ 0 = ground arith in
          let (behind, e, l, d) =
            pad_to_8_lem fuel cap (out ++ 0 ∷ []) (ground (arith, n)) (rw n (omega arith)) in
          (0 ∷ behind, e ∙ append_assoc out (0 ∷ []) behind, l, d))
      | inr stop ↦ rw stop ([], sym (append-nil out), h, ground arith)
    ]

-- `hpu_fields_serialize` keeps fields in their
-- order, each whole or with its text cut to 256 bytes, as long as fewer than 16 are kept and the next
-- one fits the budget and the region, leaves unfit ones out, and counts exactly the fields that it
-- leaves out and the texts that it cuts; the region holds the kept fields and is padded to a multiple
-- of 8 or to its end. `hpu_fields_unpack` reads one field for each kept one, with its type tag and
-- value, in order; its key is the address where the key stands, of which neither the length nor an end
-- is kept.
pub unpack-serialize :
    (fields : List Field) (budget cap : ℕ) {wire : Bytes} {cnt drop : ℕ}
    → serialize fields budget cap ≡ some (wire, cnt, drop)
    → (es : List Entry) × Keeps (min budget cap) 0 0 fields es drop
      × (cnt ≡ length es)
      × (cnt ≤ max_fields)
      × (length (spans es) ≤ min budget cap)
      × (length wire ≤ cap)
      × ((length wire % 8 ≡ 0) ⊎ (length wire ≡ cap))
      × ((behind : Bytes) × (wire ≡ spans es ++ behind))
      × ReadsAt wire 0 es
      × (unpack cnt max_fields wire ≡ rows 0 es)
unfolding serialize
unpack-serialize fields budget cap {wire} {cnt} {drop} h = elim (Bool-cases (cap == 0)) [
  | inl z ↦ absurd (cc (rw z at h))
  | inr nz ↦
      let e = some-injective _ _ (rw nz at h) in
      let s = serialize_all budget cap fields start in
      let (es, drops, k, r) = serialize_all-Outcome budget cap fields start refl (omega arith) in
      let (few, room) = Keeps-bounds k (omega arith) (omega arith) in
      let l_out : length s.out ≡ length (spans es) = ap length r.grows in
      let (behind, p, l, d) = pad_to_8_lem 8 cap s.out (omega (arith, l_out, room)) (omega arith) in
      let wire_is : wire ≡ spans es ++ behind =
        sym (ap (λ t. t.0) e) ∙ p ∙ ap (λ z. z ++ behind) r.grows in
      let cnt_is : cnt ≡ length es = sym (ap (λ t. t.1) e) ∙ r.counts ∙ omega arith in
      let drop_is : drops ≡ drop = sym (r.drop_is ∙ omega arith) ∙ ap (λ t. t.2) e in
      (
        es,
        rw drop_is at k,
        cnt_is,
        omega (arith, cnt_is, few),
        omega (arith, room),
        rw (← ap (λ t. t.0) e) l,
        rw (← ap (λ t. t.0) e) d,
        (behind, wire_is),
        ReadsAt-spans wire 0 es behind wire_is,
        rw (cnt_is, wire_is)
            (unpack-spans es max_fields behind (Keeps-AllFit k) (omega (arith, few))),
      )
]
