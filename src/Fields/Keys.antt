-- ===== src/Fields/Keys.antt =====
-- src/output/output.c, `filter_next_token` and `parse_filter_keys`: the value of `filter keys`.
use hpulogc.Prelude.{
  ℕ, zero, suc, ◌+◌, Bool, ◌||◌, List, [], ◌∷◌, Option, none, some, if◌then◌else◌, ltb, leb, ◌==◌,
  length, Bytes,
}
use hpulogc.Fields.Serialize.{max_key_len}
use hpulogc.Fields.Filter.{FilterKey, installed}

-- `HPULOGC_MAX_SINK_FILTER_KEYS`
abbrev pub max_filter_keys : ℕ
max_filter_keys = 8

abbrev pub blank : ℕ → Bool
blank c = c == 32 || c == 9

unfoldable pub skip_blanks : Bytes → Bytes
skip_blanks [] = []
skip_blanks (c ∷ s) = if blank c then skip_blanks s else c ∷ s

-- The bytes before the next comma, and what stands behind them.
unfoldable pub before_comma : Bytes → Bytes × Bytes
before_comma [] = ([], [])
before_comma (c ∷ s) =
    let (tok, rest) = before_comma s in if c == 44 then ([], c ∷ s) else (c ∷ tok, rest)

-- Without the blanks at the end.
unfoldable pub trim_end : Bytes → Bytes
trim_end [] = []
trim_end (c ∷ s) = elim (trim_end s) [ [] ↦ (if blank c then [] else c ∷ []) | d ∷ t ↦ c ∷ d ∷ t ]

abbrev pub past_comma : Bytes → Bytes
past_comma [] = []
past_comma (c ∷ s) = s

-- The results of `filter_next_token`: 0, -1, or 1 with the token and the cursor.
pub data Next : Type 0 where
  ended : Next
  empty_token : Next
  token : Bytes → Bytes → Next

unfoldable pub token_from : Bytes → Next
token_from [] = ended
token_from (c ∷ s) =
    let (tok, rest) = before_comma (c ∷ s) in
    if c == 44 then empty_token else token (trim_end tok) (past_comma rest)

abbrev pub next_token : Bytes → Next
next_token s = token_from (skip_blanks s)

-- Pass 1, with `n` tokens before; `none` is -1. Each token takes a byte at least.
unfoldable pub tokens : ℕ → ℕ → Bytes → Option (List Bytes)
tokens zero n s = none
tokens (suc fuel) n s = elim (next_token s) [
  | ended ↦ some []
  | empty_token ↦ none
  | token tok rest ↦
      if leb max_filter_keys n || ltb max_key_len (length tok)
      then none
      else elim (tokens fuel (n + 1) rest) [ none ↦ none | some toks ↦ some (tok ∷ toks) ]
]

-- `parse_filter_keys`: the tables that it installs, in which no key is no filter.
unfoldable pub parse_filter_keys : Option Bytes → Option (List FilterKey)
parse_filter_keys none = none
parse_filter_keys (some val) = elim (tokens (length val + 1) 0 val) [
  | none ↦ none
  | some toks ↦ some (installed toks)
]
