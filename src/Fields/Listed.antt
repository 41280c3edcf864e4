-- ===== src/Fields/Listed.antt =====
-- src/output/output.c, `parse_filter_keys` on a list of keys.
use hpulogc.Prelude.{
  ℕ, zero, suc, ◌+◌, ◌≤◌, ◌<◌, ◌≡◌, ◌≢◌, refl, ap, false, ◌||◌, List, [], ◌∷◌, ◌++◌, Option, none,
  some, ltb, leb, ◌==◌, arith, length, length-append, Bytes,
}
use hpulogc.Fields.Serialize.{max_key_len}
use hpulogc.Fields.Filter.{installed}
use hpulogc.Fields.Keys.{
  max_filter_keys, blank, skip_blanks, before_comma, trim_end, token, token_from, next_token,
  tokens, parse_filter_keys,
}

-- A text without commas and blanks.
abbrev pub Plain : Bytes → Type 0
Plain [] = Unit
Plain (c ∷ s) = ((c ≢ 44) × (c ≢ 32) × (c ≢ 9)) × Plain s

abbrev pub IsKey : Bytes → Type 0
IsKey k = Plain k × (0 < length k) × (length k ≤ max_key_len)

abbrev pub AllKeys : List Bytes → Type 0
AllKeys [] = Unit
AllKeys (k ∷ ks) = IsKey k × AllKeys ks

-- The keys, each with a comma behind it but the last.
abbrev pub join : List Bytes → Bytes
join [] = []
join (k ∷ []) = k
join (k ∷ l ∷ ks) = k ++ 44 ∷ join (l ∷ ks)

before_comma-end : (k : Bytes) → Plain k → before_comma k ≡ (k, [])
unfolding before_comma
before_comma-end [] p = refl
before_comma-end (c ∷ k) p = rw (before_comma-end k p.1) (ground (arith, p.0))

before_comma-append : (k rest : Bytes) → Plain k → before_comma (k ++ 44 ∷ rest) ≡ (k, 44 ∷ rest)
unfolding before_comma
before_comma-append [] rest p = refl
before_comma-append (c ∷ k) rest p = rw (before_comma-append k rest p.1) (ground (arith, p.0))

trim_end-Plain : (k : Bytes) → Plain k → trim_end k ≡ k
unfolding trim_end
trim_end-Plain [] p = refl
trim_end-Plain (c ∷ []) p = ground (arith, p.0)
trim_end-Plain (c ∷ d ∷ k) p = rw (trim_end-Plain (d ∷ k) p.1, trim_end) refl

next_token-last : (k : Bytes) → IsKey k → next_token k ≡ token k []
unfolding token_from skip_blanks
next_token-last [] k = absurd (omega (arith, k.1))
next_token-last (c ∷ k) h =
    let b : blank c ≡ false = ground (arith, h.0.0) in
    let n : (c == 44) ≡ false = ground (arith, h.0.0) in
    rw (b, token_from, before_comma-end (c ∷ k) h.0, n, trim_end-Plain (c ∷ k) h.0) refl

next_token-more : (k rest : Bytes) → IsKey k → next_token (k ++ 44 ∷ rest) ≡ token k rest
unfolding token_from skip_blanks
next_token-more [] rest k = absurd (omega (arith, k.1))
next_token-more (c ∷ k) rest h =
    let b : blank c ≡ false = ground (arith, h.0.0) in
    let n : (c == 44) ≡ false = ground (arith, h.0.0) in
    rw (b, token_from, before_comma-append (c ∷ k) rest h.0, n, trim_end-Plain (c ∷ k) h.0) refl

tokens_step :
    (fuel n : ℕ) (s k rest : Bytes) (ks : List Bytes)
    → next_token s ≡ token k rest
    → n < max_filter_keys
    → length k ≤ max_key_len
    → tokens fuel (n + 1) rest ≡ some ks
    → tokens (suc fuel) n s ≡ some (k ∷ ks)
unfolding tokens
tokens_step fuel n s k rest ks e room short h =
    let a : (leb max_filter_keys n || ltb max_key_len (length k)) ≡ false = ground arith in
    rw (e, tokens, a, h) refl

tokens-join :
    (fuel n : ℕ) (ks : List Bytes)
    → length ks < fuel
    → n + length ks ≤ max_filter_keys
    → AllKeys ks
    → tokens fuel n (join ks) ≡ some ks
unfolding tokens token_from skip_blanks
tokens-join zero n ks f room keys = absurd (omega arith)
tokens-join (suc fuel) n [] f room keys = refl
tokens-join (suc fuel) n (k ∷ []) f room keys =
    tokens_step fuel n k k [] [] (next_token-last k keys.0) (omega arith) keys.0.2
      (tokens-join fuel (n + 1) [] (omega arith) (omega arith) tt)
tokens-join (suc fuel) n (k ∷ l ∷ ks) f room keys =
    tokens_step fuel n (join (k ∷ l ∷ ks)) k (join (l ∷ ks)) (l ∷ ks)
      (next_token-more k (join (l ∷ ks)) keys.0) (omega arith) keys.0.2
      (tokens-join fuel (n + 1) (l ∷ ks) (omega arith) (omega arith) keys.1)

join_bound : (ks : List Bytes) → AllKeys ks → length ks ≤ length (join ks)
join_bound [] keys = omega arith
join_bound (k ∷ []) keys = omega (arith, keys.0.1)
join_bound (k ∷ l ∷ ks) keys =
    omega (arith, join_bound (l ∷ ks) keys.1, length-append k (44 ∷ join (l ∷ ks)), keys.0.1)

-- The value that lists at most 8 keys with commas between them, each of 1 to 64 bytes without commas
-- and blanks, installs exactly these keys as the filter.
pub parse_filter_keys-join :
    (ks : List Bytes)
    → length ks ≤ max_filter_keys
    → AllKeys ks
    → parse_filter_keys (some (join ks)) ≡ some (installed ks)
unfolding parse_filter_keys
parse_filter_keys-join ks room keys =
    ap (λ (o : Option (List Bytes)). elim o [ none ↦ none | some toks ↦ some (installed toks) ])
      (tokens-join (length (join ks) + 1) 0 ks (omega (arith, join_bound ks keys)) (omega arith)
        keys)
