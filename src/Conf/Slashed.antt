-- ===== src/Conf/Slashed.antt =====
-- src/conf/ini.c: a word with a backslash behind it.
use hpulogc.Prelude.{◌≡◌, refl, sym, ap, ◌∙◌, false, [], ◌∷◌, ◌++◌, Bytes}
use mathlib.Core.List.{append-nil}
use hpulogc.Conf.Lexer.{cut_comment, trim_tail, soft_white, backslashes, line_body, c_string}
use hpulogc.Conf.Words.{
  Word, cut_comment-Word, soft_white-Rejects, trim_tail-Word, backslashes-Word, but_last-append,
  c_string-Word,
}

-- A text with a backslash behind it.
abbrev pub slashed : Bytes → Bytes
slashed a = a ++ 92 ∷ []

abbrev pub visible : Bytes → Bytes
visible a = trim_tail soft_white (cut_comment false a)

pub visible-Word : (a s : Bytes) → Word a → visible (a ++ s) ≡ a ++ visible s
visible-Word a s w =
    ap (trim_tail soft_white) (cut_comment-Word a s w)
    ∙ trim_tail-Word soft_white a (cut_comment false s) soft_white-Rejects w

pub visible_alone : (a : Bytes) → Word a → visible a ≡ a
unfolding trim_tail cut_comment
visible_alone a w = ap visible (sym (append-nil a)) ∙ visible-Word a [] w ∙ append-nil a

pub backslashes_alone : (a : Bytes) → Word a → backslashes a ≡ 0
unfolding backslashes
backslashes_alone a w = ap backslashes (sym (append-nil a)) ∙ backslashes-Word a [] w

pub visible-slashed : (a : Bytes) → Word a → visible (slashed a) ≡ slashed a
unfolding trim_tail cut_comment
visible-slashed a w = visible-Word a (92 ∷ []) w

pub backslashes-slashed : (a : Bytes) → Word a → backslashes (slashed a) ≡ 1
unfolding backslashes
backslashes-slashed a w = backslashes-Word a (92 ∷ []) w

pub line_body-slashed : (a : Bytes) → Word a → line_body (slashed a) ≡ a
unfolding line_body
line_body-slashed a w = rw (backslashes-slashed a w) (but_last-append a 92)

pub c_string_alone : (a : Bytes) → Word a → c_string a ≡ a
unfolding c_string
c_string_alone a w = ap c_string (sym (append-nil a)) ∙ c_string-Word a [] w ∙ append-nil a

pub line_body_alone : (a : Bytes) → Word a → line_body a ≡ a
unfolding line_body
line_body_alone a w = rw (backslashes_alone a w) refl
