-- ===== src/Conf/Follows.antt =====
-- src/conf/ini.c: what the callback keeps, parsing a file keeps.
use hpulogc.Prelude.{
  ℕ, zero, suc, ◌+◌, ◌-◌, ◌%◌, ◌≡◌, inl, inr, Bool, false, not, ◌&&◌, [], ◌∷◌, Option, none, some,
  leb, ◌==◌, Bool-cases, Option-cases, length, Bytes, ℤ, pos, negsuc,
}
use hpulogc.Conf.Lexer.{
  max_line, max_logical, Lexer, cut_comment, trim_tail, soft_white, strip_comment_and_trim,
  backslashes, line_body, c_string, fgets, ends_in_newline, at_start, called, delivered, deliver,
  joined, join_line, process_line, unless_stopped, file_round, file_lines, parse_file,
}

module _ {U : Type 0} (cb : Bytes → ℕ → U → ℤ × U) (P : U → Type 0)
    (keeps : (line : Bytes) (n : ℕ) (u : U) → P u → P (cb line n u).1) where
  abbrev Kept : Option (Lexer U × ℤ) → Type 0
  Kept none = Unit
  Kept (some r) = P r.0.user

  called_keeps : (lx : Lexer U) (s : Bytes) → P lx.user → P (called cb lx s).0.user
  called_keeps lx [] h = h
  called_keeps lx (c ∷ s) h = keeps (c ∷ s) lx.logical_start lx.user h

  delivered_keeps : (lx : Lexer U) (s : Bytes) → P lx.user → P (delivered cb lx s).0.user
  delivered_keeps lx [] h = h
  delivered_keeps lx (c ∷ s) h = called_keeps lx (strip_comment_and_trim (c ∷ s)) h

  deliver_keeps : (lx : Lexer U) → P lx.user → P (deliver cb lx).0.user
  unfolding deliver
  deliver_keeps lx h = delivered_keeps lx lx.logical h

  join_line_keeps :
      (lx : Lexer U) (line : Bytes) (n : ℕ) (last : Bool)
      → P lx.user
      → P (join_line cb lx line n last).0.user
  unfolding join_line
  join_line_keeps lx line n last h =
      elim (Bool-cases (leb max_logical (length lx.logical + length (line_body line) + 1))) [
        | inl e ↦ rw e h
        | inr e ↦ elim (Bool-cases ((backslashes line % 2 == 1) && not last)) [
          | inl c ↦ rw (e, c) h
          | inr c ↦ rw (e, c) (deliver_keeps (joined cb lx (line_body line) n) h)
        ]
      ]

  process_line_keeps :
      (lx : Lexer U) (phys : Bytes) (n : ℕ) (last : Bool)
      → P lx.user
      → P (process_line cb lx phys n last).0.user
  unfolding process_line
  process_line_keeps lx phys n last h = elim (Bool-cases (leb max_line (length phys))) [
    | inl e ↦ rw e h
    | inr e ↦ rw e (join_line_keeps lx (trim_tail soft_white (cut_comment false phys)) n last h)
  ]

  unless_stopped_keeps :
      (lx : Lexer U) (rc : ℤ) (k : Lexer U → Option (Lexer U × ℤ))
      → P lx.user
      → (P lx.user → Kept (k lx))
      → Kept (unless_stopped cb (lx, rc) k)
  unless_stopped_keeps lx (pos zero) k h f = f h
  unless_stopped_keeps lx (pos (suc n)) k h f = h
  unless_stopped_keeps lx (negsuc n) k h f = h

  file_round_keeps :
      (got : Bytes × Bool × Bytes) (lx : Lexer U) (n : ℕ)
      (go : Lexer U → Bytes → Option (Lexer U × ℤ))
      → P lx.user
      → ((lx' : Lexer U) → P lx'.user → Kept (go lx' got.2))
      → Kept (file_round cb got lx n go)
  unfolding file_round
  file_round_keeps (got, eof, rest) lx n go h f =
      let line : Bytes = c_string got in
      let r : Lexer U × ℤ = process_line cb lx line n eof in
      elim (Bool-cases (leb 1 (length line) && not (ends_in_newline line) && not eof)) [
        | inl e ↦ rw e h
        | inr e ↦ rw e (
            unless_stopped_keeps r.0 r.1 (λ lx'. go lx' rest) (process_line_keeps lx line n eof h)
              (f r.0))
      ]

  file_lines_keeps :
      (fuel : ℕ) (lx : Lexer U) (content : Bytes) (n : ℕ)
      → P lx.user
      → Kept (file_lines cb fuel lx content n)
  unfolding file_lines
  file_lines_keeps zero lx content n h = tt
  file_lines_keeps (suc fuel) lx [] n h = deliver_keeps lx h
  file_lines_keeps (suc fuel) lx (c ∷ s) n h =
      let got : Bytes × Bool × Bytes = fgets (max_line - 1) (c ∷ s) in
      file_round_keeps got lx (n + 1) (λ lx' rest. file_lines cb fuel lx' rest (n + 1)) h
        (λ lx' h'. file_lines_keeps fuel lx' got.2 (n + 1) h')

  parse_file-Kept :
      (regular : Bytes → Bool) (fopen : Bytes → Option Bytes) (u : U) (path : Bytes)
      → P u
      → Kept (parse_file cb regular fopen u (some path))
  unfolding parse_file
  parse_file-Kept regular fopen u path h = elim (Bool-cases (regular path)) [
    | inr e ↦ rw e h
    | inl e ↦ elim (Option-cases (fopen path)) [
      | inl o ↦ rw (e, o) h
      | inr (content, o) ↦
          rw (e, o) (file_lines_keeps (length content + 1) (at_start cb u) content 0 h)
    ]
  ]

  pub parse_file_keeps :
      (regular : Bytes → Bool) (fopen : Bytes → Option Bytes) (u : U) (path : Bytes)
      {r : Lexer U × ℤ}
      → P u
      → parse_file cb regular fopen u (some path) ≡ some r
      → P r.0.user
  parse_file_keeps regular fopen u path h e = rw e at (parse_file-Kept regular fopen u path h)
