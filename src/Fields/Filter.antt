-- ===== src/Fields/Filter.antt =====
-- src/output/output.c, `hpu_output_filter_apply`: the fields of an event by a sink's key whitelist.
use hpulogc.Prelude.{
  ℕ, zero, suc, ◌+◌, ◌-◌, ◌%◌, Bool, false, ◌&&◌, ◌||◌, not, List, [], ◌∷◌, ◌++◌, if◌then◌else◌,
  ltb, leb, ◌==◌, length, take, drop, same, Bytes,
}
use hpulogc.Fields.Wire.{Row, key_len, span_len, unpack}
use hpulogc.Fields.Serialize.{max_fields}

-- A key of the whitelist: its length, and the key pool from its offset on.
pub record FilterKey : Type 0 where
  pub len : ℕ
  pub at : Bytes

-- The tables of `parse_filter_keys` for these tokens: the pool holds them one after the other.
abbrev pub pool_of : List Bytes → Bytes
pool_of [] = []
pool_of (k ∷ ks) = k ++ pool_of ks

abbrev pub installed : List Bytes → List FilterKey
installed [] = []
installed (k ∷ ks) = record { len = length k % 256; at = pool_of (k ∷ ks) } ∷ installed ks

-- `filter_key_match`; the key's length is compared in 8 bits.
unfoldable pub key_match : List FilterKey → Bytes → Bool
key_match [] key = false
key_match (k ∷ ks) key =
    k.len == length key % 256 && same (take (length key) k.at) key || key_match ks key

abbrev pub whole : Bytes → Bool
whole wire = leb 6 (length wire) && leb (span_len wire) (length wire)

abbrev pub key_at : Bytes → Bytes
key_at wire = take (key_len wire) (drop 6 wire)

-- Pass 1: the length of the kept spans, and how many are removed.
unfoldable pub measure : List FilterKey → ℕ → Bytes → ℕ → ℕ → ℕ × ℕ
measure keys zero wire wlen removed = (wlen, removed)
measure keys (suc i) wire wlen removed =
    let kept = key_match keys (key_at wire) in
    let rest =
      measure keys i (drop (span_len wire) wire) (if kept then wlen + span_len wire else wlen)
        (if kept then removed else removed + 1) in
    if whole wire then rest else (wlen, removed)

-- Pass 2: the kept spans, one behind the other.
unfoldable pub copy_kept : List FilterKey → ℕ → Bytes → Bytes → Bytes
copy_kept keys zero wire dst = dst
copy_kept keys (suc i) wire dst =
    let rest =
      copy_kept keys i (drop (span_len wire) wire)
        (if key_match keys (key_at wire) then dst ++ take (span_len wire) wire else dst) in
    if whole wire then rest else dst

-- `while (k % 8U != 0)`: at most 7 rounds.
unfoldable pub pad_out : ℕ → Bytes → Bytes
pad_out zero dst = dst
pad_out (suc fuel) dst =
    let rest = pad_out fuel (dst ++ 0 ∷ []) in if length dst % 8 == 0 then dst else rest

-- The view after the call: the event's region and fields, the drops, and the scratch buffer with
-- the bytes that were written to it.
pub record Filtered : Type 0 where
  pub wire : Bytes
  pub fields : List Row
  pub removed : ℕ
  pub scratch_cap : ℕ
  pub written : ℕ

pub data FilterResult : Type 0 where
  untouched : FilterResult
  filtered : Filtered → FilterResult

-- The event's region and field count; `realloc_ok` is whether the scratch buffer can grow.
unfoldable pub filter_apply : List FilterKey → Bool → ℕ → Bytes → ℕ → FilterResult
filter_apply keys realloc_ok scratch_cap wire count =
    let (wlen, removed) = measure keys count wire 0 0 in
    let out = pad_out 8 (copy_kept keys count wire []) in
    if length keys == 0 || length wire == 0 || count == 0
    then untouched
    else if removed == 0
    then untouched
    else if ltb scratch_cap wlen && not realloc_ok
    then untouched
    else filtered (record {
      wire = out;
      fields = unpack (count - removed) max_fields out;
      removed = removed;
      scratch_cap = if ltb scratch_cap wlen then wlen else scratch_cap;
      written = length out;
    })
