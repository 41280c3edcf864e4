-- ===== src/Conf/Continued.antt =====
-- src/conf/ini.c: a line with a backslash at its end, in a text and in a file.
use hpulogc.Prelude.{
  ℕ, suc, ◌+◌, ◌-◌, ◌<◌, ◌≡◌, ◌≢◌, refl, sym, ap, ◌∙◌, Bool, true, false, not, ◌&&◌, [], ◌∷◌, ◌++◌,
  Option, some, leb, ◌==◌, arith, length, length-append, Bytes, ℤ, pos,
}
use mathlib.Core.List.{append_assoc}
use hpulogc.Conf.Lexer.{
  max_line, max_logical, Lexer, cut_comment, trim_tail, strip_comment_and_trim, backslashes, fgets,
  c_string, ends_in_newline, at_start, called, deliver, join_line, process_line, unless_stopped,
  buffer_lines, parse_buffer, start_line, file_round, file_lines, parse_file,
}
use hpulogc.Conf.Plain.{told, told_all, told_cong, told-called, buffer_step, process_line_ends}
use hpulogc.Conf.Words.{
  Word, backslashes-Word, c_string-Word, fgets-line, fgets-last, phys_line-Word, phys_line-slashed,
  ends_in_newline-append, strip-Word,
}
use hpulogc.Conf.Slashed.{
  slashed, visible, visible-Word, visible_alone, backslashes_alone, visible-slashed,
  backslashes-slashed, line_body-slashed, c_string_alone, line_body_alone,
}

module _ {U : Type 0} (cb : Bytes → ℕ → U → ℤ × U) where
  process_line-join_line :
      (lx : Lexer U) (s t : Bytes) (n : ℕ) (last : Bool)
      → length s < max_line
      → visible s ≡ t
      → process_line cb lx s n last ≡ join_line cb lx t n last
  unfolding process_line
  process_line-join_line lx s t n last h e =
      let short : leb max_line (length s) ≡ false = ground arith in rw (short, e) refl

  -- A first line that continues is kept.
  held : U → Bytes → Lexer U
  held u a = record { logical = a; logical_start = 1; user = u; err_line = 0 }

  join_line-slashed :
      (u : U) (c : ℕ) (a : Bytes)
      → Word (c ∷ a)
      → length (c ∷ a) < max_line
      → join_line cb (at_start cb u) (slashed (c ∷ a)) 1 false ≡ (held u (c ∷ a), pos 0)
  unfolding join_line held
  join_line-slashed u c a w h =
      let fits : leb max_logical (0 + length (c ∷ a) + 1) ≡ false = ground arith in
      let start : leb 1 (suc (length a)) ≡ true = ground arith in
      rw (join_line, line_body-slashed (c ∷ a) w, backslashes-slashed (c ∷ a) w, fits, start) refl

  join_line-held :
      (u : U) (a b : Bytes) (c : ℕ)
      → Word b
      → length b < max_line
      → length (c ∷ a) < max_line
      → join_line cb (held u (c ∷ a)) b 2 true ≡ told cb u 1 (strip_comment_and_trim (c ∷ a ++ b))
  unfolding join_line held deliver
  join_line-held u a b c w k l =
      let fits : leb max_logical (length (c ∷ a) + length b + 1) ≡ false = ground arith in
      let s : Bytes = c ∷ a ++ b in
      let start : start_line cb (held u (c ∷ a)) b 2 ≡ 1 = ground arith in
      rw (join_line, line_body_alone b w, backslashes_alone b w, fits)
        (ap
            (λ (k : ℕ).
              called cb (record { logical = s; logical_start = k; user = u; err_line = 0 })
                (strip_comment_and_trim s))
            start
          ∙ told-called cb u 1 s (strip_comment_and_trim s))

  file_round-line :
      (got rest : Bytes) (eof : Bool) (lx : Lexer U) (n : ℕ)
      (go : Lexer U → Bytes → Option (Lexer U × ℤ))
      → c_string got ≡ got
      → (leb 1 (length got) && not (ends_in_newline got) && not eof) ≡ false
      → file_round cb (got, eof, rest) lx n go
        ≡ unless_stopped cb (process_line cb lx got n eof) (λ lx'. go lx' rest)
  unfolding file_round
  file_round-line got rest eof lx n go l t = rw (l, t) refl

  file_step :
      (fuel : ℕ) (lx : Lexer U) (content got rest : Bytes) (eof : Bool) (n : ℕ)
      → content ≢ []
      → fgets (max_line - 1) content ≡ (got, eof, rest)
      → c_string got ≡ got
      → (leb 1 (length got) && not (ends_in_newline got) && not eof) ≡ false
      → file_lines cb (suc fuel) lx content n
        ≡ unless_stopped cb
            (process_line cb lx got (n + 1) eof)
            (λ lx'. file_lines cb fuel lx' rest (n + 1))
  unfolding file_lines
  file_step fuel lx [] got rest eof n z e l t = absurd (z refl)
  file_step fuel lx (c ∷ s) got rest eof n z e l t =
      rw (file_lines, e)
        (file_round-line got rest eof lx (n + 1) (λ lx' left. file_lines cb fuel lx' left (n + 1)) l
          t)

  -- In a text the two lines are one.
  buffer_lines-slashed :
      (fuel : ℕ) (u : U) (c d : ℕ) (a b : Bytes)
      → Word (c ∷ a)
      → Word (d ∷ b)
      → length (c ∷ a) + 2 < max_line
      → length (d ∷ b) + 1 < max_line
      → buffer_lines cb (suc (suc (suc fuel))) (at_start cb u) (c ∷ a ++ 92 ∷ 10 ∷ d ∷ b) 0
        ≡ told_all cb ((c ∷ a ++ d ∷ b) ∷ []) 0 u
  unfolding told_all buffer_lines deliver
  buffer_lines-slashed fuel u c d a b v w h k =
      let text : Bytes = c ∷ a ++ 92 ∷ 10 ∷ d ∷ b in
      let more : (length (d ∷ b) == 0) ≡ false = ground arith in
      let short : length (slashed (c ∷ a)) < max_line =
        omega (arith, length-append (c ∷ a) (92 ∷ [])) in
      let first : process_line cb (at_start cb u) (slashed (c ∷ a)) 1 false
          ≡ (held u (c ∷ a), pos 0) =
        process_line-join_line (at_start cb u) (slashed (c ∷ a)) (slashed (c ∷ a)) 1 false short
          (visible-slashed (c ∷ a) v)
        ∙ join_line-slashed u c a v (omega arith) in
      let second : process_line cb (held u (c ∷ a)) (d ∷ b) 2 true
          ≡ told cb u 1 (strip_comment_and_trim (c ∷ a ++ d ∷ b)) =
        process_line-join_line (held u (c ∷ a)) (d ∷ b) (d ∷ b) 2 true (omega arith)
          (visible_alone (d ∷ b) w)
        ∙ join_line-held u a (d ∷ b) c w (omega arith) (omega arith) in
      buffer_step cb (suc (suc fuel)) (at_start cb u) text (slashed (c ∷ a)) (d ∷ b) 0 (λ e. cc)
        (phys_line-slashed (max_line - 1) (c ∷ a) (d ∷ b) v (omega arith))
      ∙ rw (more, first)
          (buffer_step cb (suc fuel) (held u (c ∷ a)) (d ∷ b) (d ∷ b) [] 1 (λ e. cc)
              (phys_line-Word (max_line - 1) (d ∷ b) w (omega arith))
            ∙ rw second (
                told_cong cb u 1 (strip_comment_and_trim (c ∷ a ++ d ∷ b))
                  (λ lx. buffer_lines cb (suc fuel) lx [] 2) (λ lx. told_all cb [] 1 lx.user)
                  (λ x. refl)))

  process_line-newline :
      (u : U) (c : ℕ) (a : Bytes)
      → Word (c ∷ a)
      → length (c ∷ a) + 2 < max_line
      → process_line cb (at_start cb u) (c ∷ a ++ 92 ∷ 10 ∷ []) 1 false
        ≡ told cb u 1 (strip_comment_and_trim (slashed (c ∷ a)))
  unfolding cut_comment trim_tail backslashes strip_comment_and_trim
  process_line-newline u c a w h =
      let got : Bytes = c ∷ a ++ 92 ∷ 10 ∷ [] in
      let size : length got ≡ length (c ∷ a) + 2 = length-append (c ∷ a) (92 ∷ 10 ∷ []) in
      let ends : backslashes (visible got) ≡ 0 =
        ap backslashes (visible-Word (c ∷ a) (92 ∷ 10 ∷ []) w)
        ∙ backslashes-Word (c ∷ a) (92 ∷ 10 ∷ []) w in
      let same : strip_comment_and_trim got ≡ strip_comment_and_trim (slashed (c ∷ a)) =
        strip-Word (c ∷ a) (92 ∷ 10 ∷ []) w ∙ sym (strip-Word (c ∷ a) (92 ∷ []) w) in
      process_line_ends cb u got 1 false (omega arith) ends ∙ ap (told cb u 1) same

  process_line-Word :
      (u : U) (b : Bytes) (n : ℕ)
      → Word b
      → length b < max_line
      → process_line cb (at_start cb u) b n true ≡ told cb u n (strip_comment_and_trim b)
  process_line-Word u b n w h =
      process_line_ends cb u b n true h (ap backslashes (visible_alone b w) ∙ backslashes_alone b w)

  -- In a file they are two, and the first keeps its backslash.
  file_lines-slashed :
      (fuel : ℕ) (u : U) (c d : ℕ) (a b : Bytes)
      → Word (c ∷ a)
      → Word (d ∷ b)
      → length (c ∷ a) + 2 < max_line
      → length (d ∷ b) + 1 < max_line
      → file_lines cb (suc (suc (suc fuel))) (at_start cb u) (c ∷ a ++ 92 ∷ 10 ∷ d ∷ b) 0
        ≡ told_all cb (slashed (c ∷ a) ∷ (d ∷ b) ∷ []) 0 u
  unfolding file_lines told_all deliver c_string
  file_lines-slashed fuel u c d a b v w h k =
      let got : Bytes = c ∷ a ++ 92 ∷ 10 ∷ [] in
      let size : length got ≡ length (c ∷ a) + 2 = length-append (c ∷ a) (92 ∷ 10 ∷ []) in
      let test : (leb 1 (length got) && not (ends_in_newline got) && not false) ≡ false =
        rw (ends_in_newline-append (c ∷ a)) (ground arith) in
      let test' : (leb 1 (length (d ∷ b)) && not (ends_in_newline (d ∷ b)) && not true) ≡ false =
        ground arith in
      let first : process_line cb (at_start cb u) got 1 false
          ≡ told cb u 1 (strip_comment_and_trim (slashed (c ∷ a))) =
        process_line-newline u c a v (omega arith) in
      file_step (suc (suc fuel)) (at_start cb u) (c ∷ a ++ 92 ∷ 10 ∷ d ∷ b) got (d ∷ b) false 0
        (λ e. cc) (fgets-line (max_line - 1) (c ∷ a) (d ∷ b) v (omega arith))
        (c_string-Word (c ∷ a) (92 ∷ 10 ∷ []) v) test
      ∙ rw first (
          told_cong cb u 1 (strip_comment_and_trim (slashed (c ∷ a)))
            (λ lx. file_lines cb (suc (suc fuel)) lx (d ∷ b) 1)
            (λ lx. told_all cb ((d ∷ b) ∷ []) 1 lx.user)
            (λ x.
              file_step (suc fuel) (at_start cb x) (d ∷ b) (d ∷ b) [] true 1 (λ e. cc)
                (fgets-last (max_line - 1) (d ∷ b) w (omega arith)) (c_string_alone (d ∷ b) w) test'
              ∙ rw (process_line-Word x (d ∷ b) 2 w (omega arith)) (
                  told_cong cb x 2 (strip_comment_and_trim (d ∷ b))
                    (λ lx. file_lines cb (suc fuel) lx [] 2) (λ lx. told_all cb [] 2 lx.user)
                    (λ y. refl))))

  -- Two words of which the first has a backslash behind it, on two lines: the text gives the callback
  -- one line, and a file with the same bytes gives it two, the first of which keeps the backslash.
  pub continues_in_text_only :
      {FilePath : Type 0} (regular : FilePath → Bool) (fopen : FilePath → Option Bytes)
      (path : FilePath) (u : U) (c d : ℕ) (a b : Bytes)
      → Word (c ∷ a)
      → Word (d ∷ b)
      → length (c ∷ a) + 2 < max_line
      → length (d ∷ b) + 1 < max_line
      → regular path ≡ true
      → fopen path ≡ some (slashed (c ∷ a) ++ 10 ∷ d ∷ b)
      → (parse_buffer cb u (slashed (c ∷ a) ++ 10 ∷ d ∷ b)
          ≡ told_all cb ((c ∷ a ++ d ∷ b) ∷ []) 0 u)
        × (parse_file cb regular fopen u (some path)
            ≡ told_all cb (slashed (c ∷ a) ∷ (d ∷ b) ∷ []) 0 u)
  unfolding parse_buffer parse_file
  continues_in_text_only regular fopen path u c d a b v w h k r o =
      let text : Bytes = c ∷ a ++ 92 ∷ 10 ∷ d ∷ b in
      let same : slashed (c ∷ a) ++ 10 ∷ d ∷ b ≡ text =
        append_assoc (c ∷ a) (92 ∷ []) (10 ∷ d ∷ b) in
      let size : length text + 1 ≡ suc (suc (suc (length a + length b + 2))) =
        omega (arith, length-append (c ∷ a) (92 ∷ 10 ∷ d ∷ b)) in
      let fuel : ℕ = length a + length b + 2 in
      (
        ap (λ (t : Bytes). buffer_lines cb (length t + 1) (at_start cb u) t 0) same
            ∙ rw size (buffer_lines-slashed fuel u c d a b v w h k),
        rw (r, o)
            (ap (λ (t : Bytes). file_lines cb (length t + 1) (at_start cb u) t 0) same
              ∙ rw size (file_lines-slashed fuel u c d a b v w h k)),
      )
