-- ===== src/Fields/Kept.antt =====
-- src/output/output.c: the spans that the filter of a sink keeps.
use hpulogc.Prelude.{
  ℕ, zero, suc, ◌+◌, ◌-◌, ◌%◌, ◌≤◌, ◌<◌, ◌≡◌, ◌≢◌, refl, ap, ◌∙◌, sym, Bool, true, false,
  Bool-cases, inl, inr, ◌&&◌, ◌||◌, List, [], ◌∷◌, ◌++◌, if◌then◌else◌, ◌==◌, arith, length,
  length-append, take, drop, take-append_length, drop-append_length, ==_iff, same, Bytes,
}
use mathlib.Core.List.{append-nil, append_assoc}
use hpulogc.Fields.Wire.{
  Entry, span, spans, length-span, Fits, AllFit, span_len, key_len-span, val_len-span, key_part,
}
use hpulogc.Fields.Filter.{
  pool_of, installed, key_match, whole, key_at, measure, copy_kept, pad_out,
}

-- The fields that a whitelist keeps.
unfoldable pub listed : List Bytes → Bytes → Bool
listed [] key = false
listed (k ∷ ks) key = same k key || listed ks key

unfoldable pub kept : List Bytes → List Entry → List Entry
kept ks [] = []
kept ks (e ∷ es) = if listed ks e.key then e ∷ kept ks es else kept ks es

abbrev pub AllShort : List Bytes → Type 0
AllShort [] = Unit
AllShort (k ∷ ks) = (length k < 256) × AllShort ks

abbrev pub ShortKeys : List Entry → Type 0
ShortKeys [] = Unit
ShortKeys (e ∷ es) = (length e.key < 256) × ShortKeys es

same-length : (a b : Bytes) → same a b ≡ true → length a ≡ length b
same-length [] [] h = refl
same-length [] (y ∷ b) h = cc
same-length (x ∷ a) [] h = cc
same-length (x ∷ a) (y ∷ b) h = ap suc (same-length a b (ground arith))

-- The comparison in the pool is that of the keys.
key_test :
    (k rest key : Bytes)
    → length k < 256
    → length key < 256
    → (length k % 256 == length key % 256 && same (take (length key) (k ++ rest)) key) ≡ same k key
key_test k rest key a b = elim (Bool-cases (length k == length key)) [
  | inl eq ↦
      let e : length key ≡ length k = sym ((==_iff (length k) (length key)).0 eq) in
      rw (e, take-append_length k rest, (==_iff (length k % 256) (length k % 256)).1 refl)
  | inr ne ↦ ground (arith, same-length k key)
]

key_match-installed :
    (ks : List Bytes) (key : Bytes)
    → AllShort ks
    → length key < 256
    → key_match (installed ks) key ≡ listed ks key
unfolding key_match listed
key_match-installed [] key a b = refl
key_match-installed (k ∷ ks) key a b =
    rw (key_test k (pool_of ks) key a.0 b, key_match-installed ks key a.1 b)

-- How many fields the whitelist removes.
unfoldable pub removals : List Bytes → List Entry → ℕ
removals ks [] = 0
removals ks (e ∷ es) = if listed ks e.key then removals ks es else removals ks es + 1

pub length-kept :
    (ks : List Bytes) (es : List Entry) → length (kept ks es) + removals ks es ≡ length es
unfolding kept removals
length-kept ks [] = omega arith
length-kept ks (e ∷ es) = ground (arith, length-kept ks es)

pub AllFit-kept : (ks : List Bytes) (es : List Entry) → AllFit es → AllFit (kept ks es)
unfolding kept
AllFit-kept ks [] f = tt
AllFit-kept ks (e ∷ es) f = elim (Bool-cases (listed ks e.key)) [
  | inl yes_ ↦ rw yes_ (f.0, AllFit-kept ks es f.1)
  | inr no_ ↦ rw no_ (AllFit-kept ks es f.1)
]

-- One field at the start of the region: it is whole, and the loops go on behind it.
whole-span : (e : Entry) (rest : Bytes) → Fits e → whole (span e ++ rest) ≡ true
whole-span e rest fit =
    let n = length-append (span e) rest ∙ ap (λ k. k + length rest) (length-span e) in
    rw (key_len-span e rest fit.0, val_len-span e rest fit.1, n) (ground arith)

key_at-span : (e : Entry) (rest : Bytes) → Fits e → key_at (span e ++ rest) ≡ e.key
key_at-span e rest fit = rw (key_len-span e rest fit.0) (key_part e rest)

span_len-span : (e : Entry) (rest : Bytes) → Fits e → span_len (span e ++ rest) ≡ length (span e)
span_len-span e rest fit =
    rw (key_len-span e rest fit.0, val_len-span e rest fit.1) (sym (length-span e))

rest-span :
    (e : Entry) (rest : Bytes) → Fits e → drop (span_len (span e ++ rest)) (span e ++ rest) ≡ rest
rest-span e rest fit = rw (span_len-span e rest fit) (drop-append_length (span e) rest)

measure_step :
    (b : Bool) (e : Entry) (es : List Entry) (n : ℕ)
    → (if b then n + length (span e) else n) + length (spans es)
      ≡ n + length (spans (if b then e ∷ es else es))
measure_step true e es n = omega (arith, length-append (span e) (spans es))
measure_step false e es n = refl

removed_step : (b : Bool) (n m : ℕ) → (if b then n else n + 1) + m ≡ n + (if b then m else m + 1)
removed_step true n m = refl
removed_step false n m = omega arith

copy_step :
    (b : Bool) (e : Entry) (es : List Entry) (dst : Bytes)
    → (if b then dst ++ span e else dst) ++ spans es ≡ dst ++ spans (if b then e ∷ es else es)
copy_step true e es dst = append_assoc dst (span e) (spans es)
copy_step false e es dst = refl

pub measure-spans :
    (ks : List Bytes) (es : List Entry) (behind : Bytes) (wlen removed : ℕ)
    → AllShort ks
    → AllFit es
    → ShortKeys es
    → measure (installed ks) (length es) (spans es ++ behind) wlen removed
      ≡ (wlen + length (spans (kept ks es)), removed + removals ks es)
unfolding measure kept removals
measure-spans ks [] behind wlen removed a f s =
    let p : wlen ≡ wlen + 0 = omega arith in
    let q : removed ≡ removed + 0 = omega arith in λ i. (p i, q i)
measure-spans ks (e ∷ es) behind wlen removed a f s = rw (append_assoc (span e) (spans es) behind) (
    rw
      (
        whole-span e (spans es ++ behind) f.0,
        key_at-span e (spans es ++ behind) f.0,
        key_match-installed ks e.key a s.0,
        rest-span e (spans es ++ behind) f.0,
        span_len-span e (spans es ++ behind) f.0,
      )
      (measure-spans ks es behind (if listed ks e.key then wlen + length (span e) else wlen)
          (if listed ks e.key then removed else removed + 1) a f.1 s.1
        ∙ (λ i. (
          measure_step (listed ks e.key) e (kept ks es) wlen i,
          removed_step (listed ks e.key) removed (removals ks es) i,
        ))))

pub copy_kept-spans :
    (ks : List Bytes) (es : List Entry) (behind dst : Bytes)
    → AllShort ks
    → AllFit es
    → ShortKeys es
    → copy_kept (installed ks) (length es) (spans es ++ behind) dst ≡ dst ++ spans (kept ks es)
unfolding copy_kept kept
copy_kept-spans ks [] behind dst a f s = sym (append-nil dst)
copy_kept-spans ks (e ∷ es) behind dst a f s = rw (append_assoc (span e) (spans es) behind) (
    rw
      (
        whole-span e (spans es ++ behind) f.0,
        key_at-span e (spans es ++ behind) f.0,
        key_match-installed ks e.key a s.0,
        rest-span e (spans es ++ behind) f.0,
        span_len-span e (spans es ++ behind) f.0,
        take-append_length (span e) (spans es ++ behind),
      )
      (copy_kept-spans ks es behind (if listed ks e.key then dst ++ span e else dst) a f.1 s.1
        ∙ copy_step (listed ks e.key) e (kept ks es) dst))

pub pad_out_lem :
    (fuel : ℕ) (dst : Bytes)
    → (8 - length dst % 8) % 8 ≤ fuel
    → (behind : Bytes) × (pad_out fuel dst ≡ dst ++ behind) × (length (pad_out fuel dst) % 8 ≡ 0)
unfolding pad_out
pad_out_lem zero dst f = ([], sym (append-nil dst), omega arith)
pad_out_lem (suc fuel) dst f = elim (Bool-cases (length dst % 8 == 0)) [
  | inl stop ↦ rw stop ([], sym (append-nil dst), (==_iff (length dst % 8) 0).0 stop)
  | inr go ↦ rw go (
      let n = length-append dst (0 ∷ []) in
      let ne : length dst % 8 ≢ 0 = ground arith in
      let (behind, e, d) = pad_out_lem fuel (dst ++ 0 ∷ []) (rw n (omega arith)) in
      (0 ∷ behind, e ∙ append_assoc dst (0 ∷ []) behind, d))
]
