-- ===== src/Memory/Words.antt =====
-- Fixed-width words, and structures of them, written and read.
use native.Mathlib.Nat.{pow-suc}
use hpulogc.Prelude.{
  ℕ, zero, suc, ◌+◌, ◌/◌, ◌^◌, ◌<◌, ◌≡◌, refl, ap, ap₂, ◌∙◌, List, [], ◌∷◌, arith, length,
  length-append,
}
use hpulogc.Memory.{Mem, le_bytes, le_value, word, pack, unpack}
use hpulogc.Memory.Regions.{Holds, load-Holds, Holds-append_left, Holds-append_right}

pub length-le_bytes : (w x : ℕ) → length (le_bytes w x) ≡ w
unfolding le_bytes
length-le_bytes zero x = refl
length-le_bytes (suc w) x = ap suc (length-le_bytes w (x / 256))

pub le_value-le_bytes : (w x : ℕ) → x < 256 ^ w → le_value (le_bytes w x) ≡ x
unfolding le_value le_bytes
le_value-le_bytes zero x h = omega arith
le_value-le_bytes (suc w) x h =
    omega (arith, le_value-le_bytes w (x / 256) (omega (arith, pow-suc 256 w)))

word-le_bytes :
    (m : Mem) (pos w x : ℕ) → x < 256 ^ w → Holds m pos (le_bytes w x) → word m pos w ≡ x
unfolding word
word-le_bytes m pos w x h held =
    ap le_value (rw (length-le_bytes w x) at (load-Holds m pos (le_bytes w x) held))
    ∙ le_value-le_bytes w x h

-- Every field's value fits its width.
abbrev pub AllFit : List (ℕ × ℕ) → Type 0
AllFit [] = Unit
AllFit ((w, x) ∷ fields) = (x < 256 ^ w) × AllFit fields

abbrev pub widths : List (ℕ × ℕ) → List ℕ
widths [] = []
widths ((w, x) ∷ fields) = w ∷ widths fields

abbrev pub values : List (ℕ × ℕ) → List ℕ
values [] = []
values ((w, x) ∷ fields) = x ∷ values fields

abbrev pub total_width : List (ℕ × ℕ) → ℕ
total_width [] = 0
total_width ((w, x) ∷ fields) = w + total_width fields

pub length-pack : (fields : List (ℕ × ℕ)) → length (pack fields) ≡ total_width fields
unfolding pack
length-pack [] = refl
length-pack ((w, x) ∷ fields) =
    length-append (le_bytes w x) (pack fields) ∙ ap₂ ◌+◌ (length-le_bytes w x) (length-pack fields)

pub unpack-pack :
    (fields : List (ℕ × ℕ)) (m : Mem) (pos : ℕ)
    → AllFit fields
    → Holds m pos (pack fields)
    → unpack m pos (widths fields) ≡ values fields
unfolding unpack pack
unpack-pack [] m pos fit held = refl
unpack-pack ((w, x) ∷ fields) m pos fit held =
    ap₂ ◌∷◌
      (word-le_bytes m pos w x fit.0 (Holds-append_left m pos (le_bytes w x) (pack fields) held))
      (unpack-pack fields m (pos + w) fit.1
        (rw (length-le_bytes w x) at (Holds-append_right m pos (le_bytes w x) (pack fields) held)))
