-- ===== src/Conf/Order.antt =====
-- src/conf/conf_file.c: the sections of a file that is accepted.
use mathlib.Core.Path.{subst}
use mathlib.Core.Option.{some-injective}
use hpulogc.Prelude.{
  ℕ, zero, suc, ◌+◌, ◌<◌, ◌≡◌, refl, inl, inr, Bool, true, false, not, ◌&&◌, List, [], ◌∷◌, Option,
  none, some, if◌then◌else◌, leb, ltb, ◌==◌, arith, Bool-cases, Option-cases, Bytes, ℤ, pos, negsuc,
  codes, same, ◌||◌, length,
}
use hpulogc.Conf.Result.{
  Result, ok, err, err_config, Ensures, ensured, Ensures-bind, Ensures-or_fail, Ensures-guard,
  Ensures-any, Ensures-ok,
}
use hpulogc.Conf.Values.{index_of}
use hpulogc.Conf.File.{
  Parser, Uses, section_names, header_name, in_order, enter, key_value, parse_key_value, set_key,
  is_header, parsed, unless_failed, conf_line_cb,
}

-- The rank of the section that a line opens, if it is the header of one.
abbrev pub opens : Bytes → Option ℕ
opens line =
    if is_header line
    then elim (header_name line) [ none ↦ none | some name ↦ index_of 0 section_names name ]
    else none

abbrev pub followed : Option ℕ → List ℕ → List ℕ
followed none rs = rs
followed (some r) rs = r ∷ rs

-- The ranks of the sections that the lines open, in order.
unfoldable pub sections : List Bytes → List ℕ
sections [] = []
sections (l ∷ ls) = followed (opens l) (sections ls)

abbrev pub Above : Option ℕ → ℕ → Type 0
Above none r = Unit
Above (some c) r = c < r

-- Each rank is above the one before it, and the first above `cur`.
abbrev pub Ascending : Option ℕ → List ℕ → Type 0
Ascending cur [] = Unit
Ascending cur (r ∷ rs) = Above cur r × Ascending (some r) rs

abbrev pub accepted_by : ℤ × Parser → Option Parser
accepted_by (pos zero, ps) = some ps
accepted_by (pos (suc n), ps) = none
accepted_by (negsuc n, ps) = none

module _ (uses : Uses) where
  -- The callback on line after line, as long as it returns 0.
  unfoldable pub feed : ℕ → List Bytes → Parser → Option Parser
  feed n [] ps = some ps
  feed n (l ∷ ls) ps = elim (accepted_by (conf_line_cb uses l n ps)) [
    | none ↦ none
    | some ps' ↦ feed (n + 1) ls ps'
  ]

  -- A line that is accepted opens its section above the last, or keeps the section.
  abbrev Opened : Parser → Bytes → Parser → Type 0
  Opened ps line ps' =
      (rs : List ℕ)
      → Ascending ps'.cur_section rs
      → Ascending ps.cur_section (followed (opens line) rs)

  enter-Opened :
      (ps : Parser) (line : Bytes)
      → is_header line ≡ true
      → Ensures (Opened ps line) (enter ps line)
  unfolding enter
  enter-Opened ps line header = Ensures-or_fail (header_name line) err_config λ name e.
      Ensures-or_fail (index_of 0 section_names name) err_config λ rank e'.
        Ensures-guard (in_order ps rank) err_config λ ordered.
          ensured
            (record ps {
              cur_section = some rank;
              seen = λ k. if k == rank then true else ps.seen k;
            })
            (λ rs a. rw (header, e, e') (above ps.cur_section (ps.seen rank) rank ordered, a))
    where
      above :
          (cur : Option ℕ) (seen : Bool) (rank : ℕ)
          → (not seen && elim cur [ none ↦ true | some c ↦ ltb c rank ]) ≡ true
          → Above cur rank
      above none seen rank h = tt
      above (some c) seen rank h = ground arith

  set_key-Opened :
      (ps : Parser) (line : Bytes)
      → is_header line ≡ false
      → Ensures (Opened ps line) (set_key uses ps line)
  unfolding set_key
  set_key-Opened ps line other = Ensures-or_fail (key_value line) err_config λ kv e.
      Ensures-guard (leb 1 (length kv.0)) err_config λ key.
        Ensures-guard (leb 1 (length kv.1) || same kv.0 (codes "default outputs")) err_config
          λ value.
            Ensures-bind
              (Ensures-any (parse_key_value uses ps.cur_section ps.strict ps.conf kv.0 kv.1))
              λ c any. ensured (record ps { conf = c }) (λ rs a. rw other a)

  parsed-Opened :
      (ps ps' : Parser) (line : Bytes) (r : Result Parser)
      → Ensures (Opened ps line) r
      → accepted_by (parsed ps r) ≡ some ps'
      → Opened ps line ps'
  parsed-Opened ps ps' line (ok q) h e =
      subst (Opened ps line) (some-injective _ _ e) (Ensures-ok h refl)
  parsed-Opened ps ps' line (err e) h q = cc

  unless_failed-Opened :
      (f : ℤ) (ps ps' : Parser) (line : Bytes) (r : ℤ × Parser)
      → (accepted_by r ≡ some ps' → Opened ps line ps')
      → accepted_by (unless_failed f ps r) ≡ some ps'
      → Opened ps line ps'
  unless_failed-Opened (pos zero) ps ps' line r h e = h e
  unless_failed-Opened (pos (suc n)) ps ps' line r h e = cc
  unless_failed-Opened (negsuc n) ps ps' line r h e = cc

  conf_line_cb-Opened :
      (line : Bytes) (n : ℕ) (ps ps' : Parser)
      → accepted_by (conf_line_cb uses line n ps) ≡ some ps'
      → Opened ps line ps'
  unfolding conf_line_cb
  conf_line_cb-Opened line n ps ps' h =
      let r : Result Parser = if is_header line then enter ps line else set_key uses ps line in
      let opened : Ensures (Opened ps line) r = elim (Bool-cases (is_header line)) [
        | inl e ↦ rw e (enter-Opened ps line e)
        | inr e ↦ rw e (set_key-Opened ps line e)
      ] in
      unless_failed-Opened ps.failure ps ps' line (parsed ps r) (parsed-Opened ps ps' line r opened)
        h

  -- A file whose lines are all accepted opens its sections in the fixed order, each of them once.
  pub feed-Ascending :
      (n : ℕ) (ls : List Bytes) (ps ps' : Parser)
      → feed n ls ps ≡ some ps'
      → Ascending ps.cur_section (sections ls)
  unfolding feed sections
  feed-Ascending n [] ps ps' h = tt
  feed-Ascending n (l ∷ ls) ps ps' h =
      elim (Option-cases (accepted_by (conf_line_cb uses l n ps))) [
        | inl e ↦ let h' = rw (feed, e) at h in cc
        | inr (ps1, e) ↦
            conf_line_cb-Opened l n ps ps1 e (sections ls)
              (feed-Ascending (n + 1) ls ps1 ps' (rw (feed, e) at h))
      ]
