-- ===== src/Conf/Words.antt =====
-- src/conf/ini.c: texts in which no byte means anything to the lexer.
use hpulogc.Prelude.{
  ℕ, zero, suc, ◌+◌, ◌≤◌, ◌<◌, ◌≡◌, ◌≢◌, refl, ap, ◌∙◌, inl, inr, Bool, true, false, [], ◌∷◌, ◌++◌,
  some, ◌==◌, arith, length, Bytes,
}
use hpulogc.Conf.Lexer.{
  cut_comment, trim_tail, soft_white, white, strip_comment_and_trim, backslashes, but_last,
  c_string, fgets, phys_line, ends_in_newline,
}
use hpulogc.Conf.Strip.{List-cases}

abbrev pub Ordinary : ℕ → Type 0
Ordinary c = (c ≢ 0) × (c ≢ 9) × (c ≢ 10) × (c ≢ 13) × (c ≢ 32) × (c ≢ b'"') × (c ≢ b'#') × (c ≢ 92)

abbrev pub Word : Bytes → Type 0
Word [] = Unit
Word (c ∷ s) = Ordinary c × Word s

pub Word-append : (a b : Bytes) → Word a → Word b → Word (a ++ b)
Word-append [] b v w = w
Word-append (c ∷ a) b v w = (v.0, Word-append a b v.1 w)

pub cut_comment-Word :
    (a s : Bytes) → Word a → cut_comment false (a ++ s) ≡ a ++ cut_comment false s
unfolding cut_comment
cut_comment-Word [] s w = refl
cut_comment-Word (c ∷ a) s w =
    let quote : (c == b'"') ≡ false = ground (arith, w.0) in
    let hash : (c == b'#') ≡ false = ground (arith, w.0) in
    rw (quote, hash) (ap (◌∷◌ c) (cut_comment-Word a s w.1))

-- No byte of the word passes the test.
abbrev pub Rejects : (ℕ → Bool) → Type 0
Rejects p = (c : ℕ) → Ordinary c → p c ≡ false

pub soft_white-Rejects : Rejects soft_white
soft_white-Rejects c o = ground (arith, o)

pub white-Rejects : Rejects white
white-Rejects c o = ground (arith, o)

pub trim_tail-Word :
    (p : ℕ → Bool) (a s : Bytes) → Rejects p → Word a → trim_tail p (a ++ s) ≡ a ++ trim_tail p s
unfolding trim_tail
trim_tail-Word p [] s r w = refl
trim_tail-Word p (c ∷ a) s r w = elim (List-cases (a ++ trim_tail p s)) [
  | inl z ↦ rw (trim_tail-Word p a s r w.1, trim_tail, z, r c w.0) refl
  | inr (d, t, z) ↦ rw (trim_tail-Word p a s r w.1, trim_tail, z) refl
]

pub backslashes-Word : (a s : Bytes) → Word a → backslashes (a ++ s) ≡ backslashes s
unfolding backslashes
backslashes-Word [] s w = refl
backslashes-Word (c ∷ a) s w =
    let b : (c == 92) ≡ false = ground (arith, w.0) in rw b (backslashes-Word a s w.1)

pub but_last-append : (a : Bytes) (c : ℕ) → but_last (a ++ c ∷ []) ≡ a
unfolding but_last
but_last-append [] c = refl
but_last-append (d ∷ []) c = refl
but_last-append (d ∷ e ∷ a) c = ap (◌∷◌ d) (but_last-append (e ∷ a) c)

pub c_string-Word : (a s : Bytes) → Word a → c_string (a ++ s) ≡ a ++ c_string s
unfolding c_string
c_string-Word [] s w = refl
c_string-Word (c ∷ a) s w =
    let n : (c == 0) ≡ false = ground (arith, w.0) in rw n (ap (◌∷◌ c) (c_string-Word a s w.1))

pub fgets-line :
    (n : ℕ) (a rest : Bytes)
    → Word a
    → length a + 1 < n
    → fgets n (a ++ 92 ∷ 10 ∷ rest) ≡ (a ++ 92 ∷ 10 ∷ [], false, rest)
unfolding fgets
fgets-line zero a rest w h = absurd (omega arith)
fgets-line (suc zero) a rest w h = absurd (omega arith)
fgets-line (suc (suc n)) [] rest w h = refl
fgets-line (suc (suc n)) (c ∷ a) rest w h =
    let e : (c == 10) ≡ false = ground (arith, w.0) in
    rw (fgets, e, fgets-line (suc n) a rest w.1 (omega arith)) refl

pub fgets-last : (n : ℕ) (a : Bytes) → Word a → length a < n → fgets n a ≡ (a, true, [])
unfolding fgets
fgets-last zero a w h = absurd (omega arith)
fgets-last (suc n) [] w h = refl
fgets-last (suc n) (c ∷ a) w h =
    let e : (c == 10) ≡ false = ground (arith, w.0) in rw (e, fgets-last n a w.1 (omega arith)) refl

pub phys_line-Word : (n : ℕ) (a : Bytes) → Word a → length a ≤ n → phys_line n a ≡ some (a, [])
unfolding phys_line
phys_line-Word n [] w h = refl
phys_line-Word zero (c ∷ a) w h = absurd (omega arith)
phys_line-Word (suc n) (c ∷ a) w h =
    let e : (c == 10) ≡ false = ground (arith, w.0) in
    rw (e, phys_line-Word n a w.1 (omega arith)) refl

pub phys_line-slashed :
    (n : ℕ) (a rest : Bytes)
    → Word a
    → length a < n
    → phys_line n (a ++ 92 ∷ 10 ∷ rest) ≡ some (a ++ 92 ∷ [], rest)
unfolding phys_line
phys_line-slashed zero a rest w h = absurd (omega arith)
phys_line-slashed (suc n) [] rest w h = refl
phys_line-slashed (suc n) (c ∷ a) rest w h =
    let e : (c == 10) ≡ false = ground (arith, w.0) in
    rw (e, phys_line-slashed n a rest w.1 (omega arith)) refl

pub ends_in_newline-append : (a : Bytes) → ends_in_newline (a ++ 92 ∷ 10 ∷ []) ≡ true
ends_in_newline-append [] = refl
ends_in_newline-append (c ∷ []) = refl
ends_in_newline-append (c ∷ d ∷ a) = ends_in_newline-append (d ∷ a)

pub strip-Word :
    (a s : Bytes) → Word a → strip_comment_and_trim (a ++ s) ≡ a ++ strip_comment_and_trim s
unfolding strip_comment_and_trim
strip-Word a s w =
    ap (trim_tail white) (cut_comment-Word a s w)
    ∙ trim_tail-Word white a (cut_comment false s) white-Rejects w
