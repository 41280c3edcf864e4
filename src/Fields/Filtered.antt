-- ===== src/Fields/Filtered.antt =====
-- src/output/output.c, `hpu_output_filter_apply`: the fields that are left, and the scratch buffer.
use hpulogc.Prelude.{
  ℕ, suc, refl, ◌+◌, ◌-◌, ◌%◌, ◌≤◌, ◌<◌, ◌≡◌, ◌≢◌, ap, true, List, [], ◌∷◌, ◌++◌, if◌then◌else◌,
  lt→ltb, ltb, arith, length, length-append, Bytes,
}
use hpulogc.Fields.Wire.{Entry, span, spans, length-span, AllFit, unpack, unpack-spans, rows}
use hpulogc.Fields.Reads.{ReadsAt, ReadsAt-spans}
use hpulogc.Fields.Serialize.{max_fields}
use hpulogc.Fields.Filter.{installed, pad_out, Filtered, untouched, filtered, filter_apply}
use hpulogc.Fields.Kept.{
  kept, AllShort, ShortKeys, removals, length-kept, AllFit-kept, measure-spans, copy_kept-spans,
  pad_out_lem,
}

-- The view that the call leaves where it removes a field.
abbrev left_view : List Bytes → List Entry → ℕ → Filtered
left_view ks es scratch_cap =
    let wlen = length (spans (kept ks es)) in
    let out = pad_out 8 (spans (kept ks es)) in
    record {
      wire = out;
      fields = unpack (length es - removals ks es) max_fields out;
      removed = removals ks es;
      scratch_cap = if ltb scratch_cap wlen then wlen else scratch_cap;
      written = length out;
    }

past :
    (out xs pad : Bytes)
    → out ≡ xs ++ pad
    → length (xs ++ pad) ≡ length xs + length pad
    → length out % 8 ≡ 0
    → length xs % 8 ≢ 0
    → length xs < length out
past out xs pad e n d r = let l = ap length e in omega (arith, l, n)

zero_add : (n : ℕ) → 0 + n ≡ n
zero_add n = omega arith

region_pos :
    (ks : List Bytes) (es : List Entry) (behind : Bytes)
    → 0 < removals ks es
    → 0 < length (spans es ++ behind)
unfolding removals
region_pos ks [] behind p = absurd (omega arith)
region_pos ks (e ∷ es) behind p = omega (
  arith,
  length-append (span e ++ spans es) behind,
  length-append (span e) (spans es),
  length-span e,
)

length-rows : (off : ℕ) (es : List Entry) → length (rows off es) ≡ length es
length-rows off [] = refl
length-rows off (e ∷ es) = ap suc (length-rows (off + (6 + length e.key + length e.value)) es)

module _ (k : Bytes) (ks : List Bytes) (es : List Entry) (behind : Bytes) (scratch_cap : ℕ)
    (short : AllShort (k ∷ ks)) (fit : AllFit es) (keys : ShortKeys es) where
  filter_apply-untouched :
      removals (k ∷ ks) es ≡ 0
      → filter_apply (installed (k ∷ ks)) true scratch_cap (spans es ++ behind) (length es)
        ≡ untouched
  unfolding filter_apply
  filter_apply-untouched z =
      rw (measure-spans (k ∷ ks) es behind 0 0 short fit keys, z) (ground arith)

  filter_apply-filtered :
      0 < removals (k ∷ ks) es
      → filter_apply (installed (k ∷ ks)) true scratch_cap (spans es ++ behind) (length es)
        ≡ filtered (left_view (k ∷ ks) es scratch_cap)
  unfolding filter_apply
  filter_apply-filtered p =
      rw
        (
          measure-spans (k ∷ ks) es behind 0 0 short fit keys,
          copy_kept-spans (k ∷ ks) es behind [] short fit keys,
          zero_add (length (spans (kept (k ∷ ks) es))),
          zero_add (removals (k ∷ ks) es),
        )
        (ground (arith, length-kept (k ∷ ks) es, region_pos (k ∷ ks) es behind p))

  -- `hpu_output_filter_apply` on a region that holds these fields, for a whitelist of at least one
  -- key: if every field is listed the event is left alone; else exactly the listed fields are left,
  -- in order, the others are counted, and the new region, whose length is a multiple of 8, decodes
  -- to the fields that are left: their tags, values and addresses, at which their keys stand.
  pub filter_apply-kept :
      length es ≤ max_fields
      → (removals (k ∷ ks) es ≡ 0
          → filter_apply (installed (k ∷ ks)) true scratch_cap (spans es ++ behind) (length es)
            ≡ untouched)
        × (0 < removals (k ∷ ks) es
            → (v : Filtered) × (filter_apply
                  (installed (k ∷ ks))
                  true
                  scratch_cap
                  (spans es ++ behind)
                  (length es)
                ≡ filtered v)
              × (v.fields ≡ rows 0 (kept (k ∷ ks) es))
              × ReadsAt v.wire 0 (kept (k ∷ ks) es)
              × (length v.fields + v.removed ≡ length es)
              × (length v.wire % 8 ≡ 0))
  filter_apply-kept room = (
    filter_apply-untouched,
    λ p.
        let (pad, e, d) = pad_out_lem 8 (spans (kept (k ∷ ks) es)) (omega arith) in
        let n : length es - removals (k ∷ ks) es ≡ length (kept (k ∷ ks) es) =
          omega (arith, length-kept (k ∷ ks) es) in
        let read : unpack (length es - removals (k ∷ ks) es) max_fields
              (pad_out 8 (spans (kept (k ∷ ks) es)))
            ≡ rows 0 (kept (k ∷ ks) es) =
          rw (n, e)
            (unpack-spans (kept (k ∷ ks) es) max_fields pad (AllFit-kept (k ∷ ks) es fit)
              (omega (arith, length-kept (k ∷ ks) es))) in
        (
          left_view (k ∷ ks) es scratch_cap,
          filter_apply-filtered p,
          read,
          ReadsAt-spans (pad_out 8 (spans (kept (k ∷ ks) es))) 0 (kept (k ∷ ks) es) pad e,
          rw (read, length-rows 0 (kept (k ∷ ks) es)) (length-kept (k ∷ ks) es),
          d,
        ),
  )

  -- Where the kept spans outgrow the scratch buffer and do not end at a multiple of 8, the buffer
  -- grows to the spans alone, and the padding is written past its end.
  pub filter_apply_overruns :
      0 < removals (k ∷ ks) es
      → scratch_cap < length (spans (kept (k ∷ ks) es))
      → length (spans (kept (k ∷ ks) es)) % 8 ≢ 0
      → (v : Filtered) × (filter_apply
            (installed (k ∷ ks))
            true
            scratch_cap
            (spans es ++ behind)
            (length es)
          ≡ filtered v)
        × (v.scratch_cap < v.written)
  filter_apply_overruns p grow ragged =
      let (pad, e, d) = pad_out_lem 8 (spans (kept (k ∷ ks) es)) (omega arith) in
      let n = length-append (spans (kept (k ∷ ks) es)) pad in
      (
        left_view (k ∷ ks) es scratch_cap,
        filter_apply-filtered p,
        rw (lt→ltb scratch_cap (length (spans (kept (k ∷ ks) es))) grow) (past _ _ _ e n d ragged),
      )
