-- ===== src/Conf/Plain.antt =====
-- src/conf/ini.c, `hpu_ini_parse_buffer` on a text of lines that do not continue.
use hpulogc.Prelude.{
  ℕ, zero, suc, ◌+◌, ◌-◌, ◌≤◌, ◌<◌, ◌≡◌, ◌≢◌, refl, ap, ◌∙◌, inl, inr, Bool, true, false, not, ◌&&◌,
  List, [], ◌∷◌, ◌++◌, Option, some, if◌then◌else◌, leb, ◌==◌, arith, length, length-append, Bytes,
  ℤ, pos, negsuc,
}
use hpulogc.Conf.Lexer.{
  max_line, max_logical, Lexer, cut_comment, trim_tail, soft_white, strip_comment_and_trim,
  backslashes, phys_line, at_start, called, deliver, join_line, process_line, line_body,
  unless_stopped, buffer_lines, parse_buffer,
}
use hpulogc.Conf.Strip.{strip_twice, List-cases}

-- No newline in it.
abbrev pub OneLine : Bytes → Type 0
OneLine [] = Unit
OneLine (c ∷ s) = (c ≢ 10) × OneLine s

-- A line that fits, with no backslash at the end of what its comment and blanks leave.
pub record IsPlain (l : Bytes) : Type 0 where
  pub one_line : OneLine l
  pub short : length l < max_line
  pub ends : backslashes (trim_tail soft_white (cut_comment false l)) ≡ 0

abbrev pub AllPlain : List Bytes → Type 0
AllPlain [] = Unit
AllPlain (l ∷ ls) = IsPlain l × AllPlain ls

-- The lines, each with a newline behind it.
abbrev pub unlines : List Bytes → Bytes
unlines [] = []
unlines (l ∷ ls) = l ++ 10 ∷ unlines ls

pub length-trim_tail : (p : ℕ → Bool) (s : Bytes) → length (trim_tail p s) ≤ length s
unfolding trim_tail
length-trim_tail p [] = omega arith
length-trim_tail p (c ∷ s) = elim (List-cases (trim_tail p s)) [
  | inl z ↦ rw z (ground arith)
  | inr (d, t, z) ↦ rw z (omega (arith, ap length z, length-trim_tail p s))
]

pub length-cut_comment : (q : Bool) (s : Bytes) → length (cut_comment q s) ≤ length s
unfolding cut_comment
length-cut_comment q [] = omega arith
length-cut_comment q (c ∷ s) = ground (arith, length-cut_comment (if c == b'"' then not q else q) s)

pub phys_line-append :
    (room : ℕ) (l rest : Bytes)
    → OneLine l
    → length l ≤ room
    → phys_line room (l ++ 10 ∷ rest) ≡ some (l, rest)
unfolding phys_line
phys_line-append room [] rest o h = refl
phys_line-append zero (c ∷ l) rest o h = absurd (omega arith)
phys_line-append (suc room) (c ∷ l) rest o h =
    let n : (c == 10) ≡ false = ground (arith, o.0) in
    rw (n, phys_line-append room l rest o.1 (omega arith)) refl

module _ {U : Type 0} (cb : Bytes → ℕ → U → ℤ × U) where
  -- What becomes of the text of one line: it goes to the callback unless it is empty.
  abbrev pub told : U → ℕ → Bytes → Lexer U × ℤ
  told u n [] = (at_start cb u, pos 0)
  told u n (c ∷ s) = let (rc, u') = cb (c ∷ s) n u in (at_start cb u', rc)

  -- The stripped lines in order, each with its number, until the callback objects.
  unfoldable pub told_all : List Bytes → ℕ → U → Option (Lexer U × ℤ)
  told_all [] n u = some (at_start cb u, pos 0)
  told_all (l ∷ ls) n u =
      unless_stopped cb (told u (n + 1) (strip_comment_and_trim l))
        (λ lx. told_all ls (n + 1) lx.user)

  pub told-called :
      (u : U) (n : ℕ) (t : Bytes) (s : Bytes)
      → called cb (record { logical = t; logical_start = n; user = u; err_line = 0 }) s ≡ told u n s
  told-called u n t [] = refl
  told-called u n t (c ∷ s) = refl

  join_line-plain :
      (u : U) (n : ℕ) (last : Bool) (t : Bytes)
      → backslashes t ≡ 0
      → length t < max_line
      → join_line cb (at_start cb u) t n last ≡ told u n (strip_comment_and_trim t)
  unfolding join_line line_body deliver strip_comment_and_trim cut_comment trim_tail backslashes
  join_line-plain u n last [] b h = refl
  join_line-plain u n last (c ∷ t) b h =
      let fits : leb max_logical (0 + suc (length t) + 1) ≡ false = ground arith in
      let some_body : (leb 1 (suc (length t)) && ◌==◌ 0 0 && ◌==◌ 0 0) ≡ true = ground arith in
      rw (join_line, line_body, b, fits, some_body, deliver)
        (told-called u n (c ∷ t) (strip_comment_and_trim (c ∷ t)))

  pub process_line_ends :
      (u : U) (l : Bytes) (n : ℕ) (last : Bool)
      → length l < max_line
      → backslashes (trim_tail soft_white (cut_comment false l)) ≡ 0
      → process_line cb (at_start cb u) l n last ≡ told u n (strip_comment_and_trim l)
  unfolding process_line
  process_line_ends u l n last h e =
      let t : Bytes = trim_tail soft_white (cut_comment false l) in
      let short : leb max_line (length l) ≡ false = ground (arith, h) in
      let fits : length t < max_line =
        omega
          (arith, length-trim_tail soft_white (cut_comment false l), length-cut_comment false l) in
      rw short (join_line-plain u n last t e fits ∙ ap (told u n) (strip_twice l))

  pub unless_stopped-cong :
      (lx : Lexer U) (rc : ℤ) (k k' : Lexer U → Option (Lexer U × ℤ))
      → k lx ≡ k' lx
      → unless_stopped cb (lx, rc) k ≡ unless_stopped cb (lx, rc) k'
  unless_stopped-cong lx (pos zero) k k' h = h
  unless_stopped-cong lx (pos (suc n)) k k' h = refl
  unless_stopped-cong lx (negsuc n) k k' h = refl

  pub told_cong :
      (u : U) (n : ℕ) (s : Bytes) (k k' : Lexer U → Option (Lexer U × ℤ))
      → ((v : U) → k (at_start cb v) ≡ k' (at_start cb v))
      → unless_stopped cb (told u n s) k ≡ unless_stopped cb (told u n s) k'
  told_cong u n [] k k' h = h u
  told_cong u n (c ∷ s) k k' h =
      let r : ℤ × U = cb (c ∷ s) n u in unless_stopped-cong (at_start cb r.1) r.0 k k' (h r.1)

  pub buffer_step :
      (fuel : ℕ) (lx : Lexer U) (text line rest : Bytes) (n : ℕ)
      → text ≢ []
      → phys_line (max_line - 1) text ≡ some (line, rest)
      → buffer_lines cb (suc fuel) lx text n
        ≡ unless_stopped cb
            (process_line cb lx line (n + 1) (length rest == 0))
            (λ lx'. buffer_lines cb fuel lx' rest (n + 1))
  unfolding buffer_lines
  buffer_step fuel lx [] line rest n z e = absurd (z refl)
  buffer_step fuel lx (c ∷ s) line rest n z e = rw (buffer_lines, e) refl

  append-ne_nil : (l rest : Bytes) (c : ℕ) → l ++ c ∷ rest ≢ []
  append-ne_nil [] rest c h = cc
  append-ne_nil (d ∷ l) rest c h = cc

  buffer_lines-unlines :
      (fuel : ℕ) (u : U) (ls : List Bytes) (n : ℕ)
      → AllPlain ls
      → length (unlines ls) < fuel
      → buffer_lines cb fuel (at_start cb u) (unlines ls) n ≡ told_all ls n u
  unfolding buffer_lines told_all deliver
  buffer_lines-unlines zero u ls n all f = absurd (omega arith)
  buffer_lines-unlines (suc fuel) u [] n all f = refl
  buffer_lines-unlines (suc fuel) u (l ∷ ls) n all f =
      let rest : Bytes = unlines ls in
      let short : length l < max_line = all.0.short in
      let line : phys_line (max_line - 1) (l ++ 10 ∷ rest) ≡ some (l, rest) =
        phys_line-append (max_line - 1) l rest all.0.one_line (omega arith) in
      buffer_step fuel (at_start cb u) (l ++ 10 ∷ rest) l rest n (append-ne_nil l rest 10) line
      ∙ rw (process_line_ends u l (n + 1) (length rest == 0) all.0.short all.0.ends) (
          told_cong u (n + 1) (strip_comment_and_trim l)
            (λ lx. buffer_lines cb fuel lx rest (n + 1)) (λ lx. told_all ls (n + 1) lx.user)
            (λ v.
              buffer_lines-unlines fuel v ls (n + 1) all.1
                (omega (arith, length-append l (10 ∷ rest)))))

  -- A text of lines of at most 1023 bytes, none of which continues, is parsed as its stripped lines
  -- in order: each line that is not empty goes to the callback once with its number, until the
  -- callback returns something other than 0, which is then the result.
  pub parse_buffer-unlines :
      (u : U) (ls : List Bytes) → AllPlain ls → parse_buffer cb u (unlines ls) ≡ told_all ls 0 u
  unfolding parse_buffer
  parse_buffer-unlines u ls all =
      buffer_lines-unlines (length (unlines ls) + 1) u ls 0 all (omega arith)
