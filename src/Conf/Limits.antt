-- ===== src/Conf/Limits.antt =====
-- src/conf/ini.c: the loops end, and a joined line stays inside its array.
use hpulogc.Prelude.{
  ℕ, zero, suc, ◌+◌, ◌-◌, ◌%◌, ◌≤◌, ◌<◌, ◌≡◌, ◌≢◌, inl, inr, Bool, false, not, ◌&&◌, [], ◌∷◌, ◌++◌,
  Option, none, some, leb, ◌==◌, arith, Bool-cases, length, length-append, Bytes, ℤ, pos, negsuc,
  Option-cases,
}
use hpulogc.Conf.Lexer.{
  max_line, max_logical, Lexer, strip_comment_and_trim, backslashes, line_body, joined, trim_tail,
  soft_white, cut_comment, phys_line, fgets, c_string, ends_in_newline, at_start, called, delivered,
  deliver, join_line, process_line, unless_stopped, buffer_lines, parse_buffer, file_round,
  file_lines, parse_file,
}

phys_line-le :
    (room : ℕ) (s line rest : Bytes) → phys_line room s ≡ some (line, rest) → length rest ≤ length s
unfolding phys_line
phys_line-le room [] line rest h = ground arith
phys_line-le zero (c ∷ s) line rest h = ground arith
phys_line-le (suc room) (c ∷ s) line rest h = elim (Option-cases (phys_line room s)) [
  | inl e ↦ let h' = rw e at h in ground arith
  | inr ((l, r), e) ↦ let h' = rw e at h in ground (arith, phys_line-le room s l r e)
]

phys_line-lt :
    (room c : ℕ) (s line rest : Bytes)
    → phys_line room (c ∷ s) ≡ some (line, rest)
    → length rest < length (c ∷ s)
unfolding phys_line
phys_line-lt zero c s line rest h = ground arith
phys_line-lt (suc room) c s line rest h = elim (Option-cases (phys_line room s)) [
  | inl e ↦ let h' = rw e at h in ground arith
  | inr ((l, r), e) ↦ let h' = rw e at h in ground (arith, phys_line-le room s l r e)
]

fgets-le : (n : ℕ) (s : Bytes) → length (fgets n s).2 ≤ length s
unfolding fgets
fgets-le zero s = omega arith
fgets-le (suc n) [] = omega arith
fgets-le (suc n) (c ∷ s) = ground (arith, fgets-le n s)

fgets-lt : (n c : ℕ) (s : Bytes) → length (fgets (suc n) (c ∷ s)).2 < length (c ∷ s)
unfolding fgets
fgets-lt n c s = ground (arith, fgets-le n s)

module _ {U : Type 0} (cb : Bytes → ℕ → U → ℤ × U) where
  unless_stopped-ne-none :
      (lx : Lexer U) (rc : ℤ) (k : Lexer U → Option (Lexer U × ℤ))
      → ((lx' : Lexer U) → k lx' ≢ none)
      → unless_stopped cb (lx, rc) k ≢ none
  unless_stopped-ne-none lx (pos zero) k h = h lx
  unless_stopped-ne-none lx (pos (suc n)) k h = λ e. cc
  unless_stopped-ne-none lx (negsuc n) k h = λ e. cc

  buffer_lines-ne-none :
      (fuel : ℕ) (lx : Lexer U) (text : Bytes) (n : ℕ)
      → length text < fuel
      → buffer_lines cb fuel lx text n ≢ none
  unfolding buffer_lines
  buffer_lines-ne-none zero lx text n f = absurd (omega arith)
  buffer_lines-ne-none (suc fuel) lx [] n f = λ e. cc
  buffer_lines-ne-none (suc fuel) lx (c ∷ s) n f =
      elim (Option-cases (phys_line (max_line - 1) (c ∷ s))) [
        | inl e ↦ rw (buffer_lines, e) (λ h. cc)
        | inr ((line, rest), e) ↦
            let r : Lexer U × ℤ = process_line cb lx line (n + 1) (length rest == 0) in
            let less : length rest < suc (length s) = phys_line-lt (max_line - 1) c s line rest e in
            rw (buffer_lines, e)
              (unless_stopped-ne-none r.0 r.1 (λ lx'. buffer_lines cb fuel lx' rest (n + 1))
                (λ lx'. buffer_lines-ne-none fuel lx' rest (n + 1) (omega arith)))
      ]

  file_round-ne-none :
      (got : Bytes × Bool × Bytes) (lx : Lexer U) (n : ℕ)
      (go : Lexer U → Bytes → Option (Lexer U × ℤ))
      → ((lx' : Lexer U) → go lx' got.2 ≢ none)
      → file_round cb got lx n go ≢ none
  unfolding file_round
  file_round-ne-none (got, eof, rest) lx n go h =
      let line : Bytes = c_string got in
      let r : Lexer U × ℤ = process_line cb lx line n eof in
      elim (Bool-cases (leb 1 (length line) && not (ends_in_newline line) && not eof)) [
        | inl e ↦ rw e (λ h. cc)
        | inr e ↦ rw e (unless_stopped-ne-none r.0 r.1 (λ lx'. go lx' rest) h)
      ]

  file_lines-ne-none :
      (fuel : ℕ) (lx : Lexer U) (content : Bytes) (n : ℕ)
      → length content < fuel
      → file_lines cb fuel lx content n ≢ none
  unfolding file_lines
  file_lines-ne-none zero lx content n f = absurd (omega arith)
  file_lines-ne-none (suc fuel) lx [] n f = λ e. cc
  file_lines-ne-none (suc fuel) lx (c ∷ s) n f =
      let less : length (fgets 1023 (c ∷ s)).2 < suc (length s) = fgets-lt 1022 c s in
      file_round-ne-none (fgets 1023 (c ∷ s)) lx (n + 1)
        (λ lx' rest. file_lines cb fuel lx' rest (n + 1))
        (λ lx'. file_lines-ne-none fuel lx' (fgets 1023 (c ∷ s)).2 (n + 1) (omega arith))

  parse_file-ne-none :
      {FilePath : Type 0} (regular : FilePath → Bool) (fopen : FilePath → Option Bytes) (u : U)
      (path : Option FilePath)
      → parse_file cb regular fopen u path ≢ none
  unfolding parse_file
  parse_file-ne-none regular fopen u none = λ e. cc
  parse_file-ne-none regular fopen u (some path) = elim (Bool-cases (regular path)) [
    | inr e ↦ rw e (λ h. cc)
    | inl e ↦ elim (Option-cases (fopen path)) [
      | inl o ↦ rw (e, o) (λ h. cc)
      | inr (content, o) ↦
          rw (e, o)
            (file_lines-ne-none (length content + 1) (at_start cb u) content 0 (omega arith))
    ]
  ]

  -- Parsing ends on every text and on every file, whatever the callback does.
  pub parse_terminates :
      {FilePath : Type 0} (regular : FilePath → Bool) (fopen : FilePath → Option Bytes) (u : U)
      (text : Bytes) (path : Option FilePath)
      → (parse_buffer cb u text ≢ none) × (parse_file cb regular fopen u path ≢ none)
  unfolding parse_buffer
  parse_terminates regular fopen u text path = (
    buffer_lines-ne-none (length text + 1) (at_start cb u) text 0 (omega arith),
    parse_file-ne-none regular fopen u path,
  )

  -- Room for the terminating NUL behind a joined line.
  abbrev pub FitsLine : Lexer U → Type 0
  FitsLine lx = length lx.logical + 1 < max_logical

  called-FitsLine : (lx : Lexer U) (s : Bytes) → FitsLine (called cb lx s).0
  called-FitsLine lx [] = omega arith
  called-FitsLine lx (c ∷ s) = omega arith

  delivered-FitsLine : (lx : Lexer U) (s : Bytes) → FitsLine lx → FitsLine (delivered cb lx s).0
  delivered-FitsLine lx [] h = h
  delivered-FitsLine lx (c ∷ s) h = called-FitsLine lx (strip_comment_and_trim (c ∷ s))

  join_line-FitsLine :
      (lx : Lexer U) (line : Bytes) (n : ℕ) (last : Bool)
      → FitsLine lx
      → FitsLine (join_line cb lx line n last).0
  unfolding join_line deliver
  join_line-FitsLine lx line n last h =
      let body : Bytes = line_body line in
      elim (Bool-cases (leb max_logical (length lx.logical + length body + 1))) [
        | inl e ↦ rw e h
        | inr e ↦
            let fits : FitsLine (joined cb lx body n) =
              ground (arith, e, length-append lx.logical body) in
            elim (Bool-cases ((backslashes line % 2 == 1) && not last)) [
              | inl c ↦ rw (e, c) fits
              | inr c ↦
                  rw (e, c) (delivered-FitsLine (joined cb lx body n) (lx.logical ++ body) fits)
            ]
      ]

  -- A physical line leaves the joined line inside its array of 4096 bytes with room for the NUL, on
  -- every way out.
  pub process_line-FitsLine :
      (lx : Lexer U) (phys : Bytes) (n : ℕ) (last : Bool)
      → FitsLine lx
      → FitsLine (process_line cb lx phys n last).0
  unfolding process_line
  process_line-FitsLine lx phys n last h = elim (Bool-cases (leb max_line (length phys))) [
    | inl e ↦ rw e h
    | inr e ↦ rw e (join_line-FitsLine lx (trim_tail soft_white (cut_comment false phys)) n last h)
  ]
