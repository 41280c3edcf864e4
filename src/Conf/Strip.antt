-- ===== src/Conf/Strip.antt =====
-- src/conf/ini.c, comments and blanks at the end of a line: stripping once, twice, or in parts.
use hpulogc.Prelude.{
  ℕ, ◌≡◌, refl, sym, ap, ◌∙◌, ◌⊎◌, inl, inr, Bool, true, false, not, ◌&&◌, [], ◌∷◌, if◌then◌else◌,
  ◌==◌, arith, Bool-cases, Bytes,
}
use hpulogc.Conf.Lexer.{cut_comment, trim_tail, soft_white, white, strip_comment_and_trim}

pub List-cases : (s : Bytes) → (s ≡ []) ⊎ ((d : ℕ) × (t : Bytes) × (s ≡ d ∷ t))
List-cases [] = inl refl
List-cases (d ∷ t) = inr (d, t, refl)

-- What trimming leaves of a text without an open comment has none.
cut_comment-trim_tail :
    (p : ℕ → Bool) (q : Bool) (s : Bytes)
    → cut_comment q (trim_tail p (cut_comment q s)) ≡ trim_tail p (cut_comment q s)
unfolding cut_comment trim_tail
cut_comment-trim_tail p q [] = refl
cut_comment-trim_tail p q (c ∷ s) = elim (Bool-cases (c == b'#' && not q)) [
  | inl e ↦ rw e refl
  | inr e ↦
      let q' : Bool = if c == b'"' then not q else q in
      let ih : cut_comment q' (trim_tail p (cut_comment q' s)) ≡ trim_tail p (cut_comment q' s) =
        cut_comment-trim_tail p q' s in
      elim (List-cases (trim_tail p (cut_comment q' s))) [
        | inl z ↦ elim (Bool-cases (p c)) [
          | inl a ↦ rw (e, trim_tail, z, a) refl
          | inr a ↦ rw (e, trim_tail, z, a, cut_comment, e) refl
        ]
        | inr (d, t, z) ↦
            let ih' : cut_comment q' (d ∷ t) ≡ d ∷ t = rw z at ih in
            rw (e, trim_tail, z, cut_comment, e, ih') refl
      ]
]

trim_tail-trim_tail : (s : Bytes) → trim_tail white (trim_tail soft_white s) ≡ trim_tail white s
unfolding trim_tail
trim_tail-trim_tail [] = refl
trim_tail-trim_tail (c ∷ s) = elim (List-cases (trim_tail soft_white s)) [
  | inl z ↦
      let ih : [] ≡ trim_tail white s = rw z at (trim_tail-trim_tail s) in
      elim (Bool-cases (soft_white c)) [
        | inl a ↦ let w : white c ≡ true = ground arith in rw (z, a, sym ih, w) refl
        | inr a ↦ rw (z, a, sym ih) refl
      ]
  | inr (d, t, z) ↦
      let ih : trim_tail white (d ∷ t) ≡ trim_tail white s = rw z at (trim_tail-trim_tail s) in
      rw (z, trim_tail, ih) refl
]

pub strip_twice :
    (s : Bytes)
    → strip_comment_and_trim (trim_tail soft_white (cut_comment false s)) ≡ strip_comment_and_trim s
unfolding strip_comment_and_trim
strip_twice s =
    ap (trim_tail white) (cut_comment-trim_tail soft_white false s)
    ∙ trim_tail-trim_tail (cut_comment false s)
