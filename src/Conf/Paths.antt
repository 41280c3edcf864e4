-- ===== src/Conf/Paths.antt =====
-- src/platform/posix/posix_path.c: the lexical normal form of a path.
use hpulogc.Prelude.{
  ℕ, ◌+◌, ◌≡◌, ◌==◌, sym, ap, Bool, true, false, not, ◌&&◌, ◌||◌, if◌then◌else◌, List, [], ◌∷◌,
  ◌++◌, length, Option, none, some, Bytes, codes, leb, ltb, same,
}

abbrev pub max_depth : ℕ
max_depth = 128

abbrev joined_to : ℕ → List Bytes → List Bytes
joined_to c [] = (c ∷ []) ∷ []
joined_to c (seg ∷ segs) = (c ∷ seg) ∷ segs

-- The pieces between the slashes; an empty one lies between two slashes in a row.
unfoldable pub segments : Bytes → List Bytes
segments [] = [] ∷ []
segments (c ∷ s) = if c == b'/' then [] ∷ segments s else joined_to c (segments s)

-- The components so far, the last one first.
abbrev pub path_push : List Bytes → Bytes → Option (List Bytes)
path_push comps seg = if leb max_depth (length comps) then none else some (seg ∷ comps)

abbrev pub one_up : Bool → List Bytes → Option (List Bytes)
one_up absolute (seg ∷ comps) = some comps
one_up true [] = some []
one_up false [] = path_push [] (codes "..")

abbrev pub component : Bool → List Bytes → Bytes → Option (List Bytes)
component absolute comps seg =
    if (length seg == 0) || same seg (codes ".")
    then some comps
    else (if same seg (codes "..") then one_up absolute comps else path_push comps seg)

unfoldable pub components : Bool → List Bytes → List Bytes → Option (List Bytes)
components absolute comps [] = some comps
components absolute comps (seg ∷ segs) = elim (component absolute comps seg) [
  | none ↦ none
  | some comps' ↦ components absolute comps' segs
]

-- The components in the order of the path, before `later`.
abbrev first_to_last : List Bytes → List Bytes → List Bytes
first_to_last [] later = later
first_to_last (seg ∷ comps) later = first_to_last comps (seg ∷ later)

-- A slash stands before every component but the first.
abbrev needs_slash : Bool → ℕ → Bytes → Bool
needs_slash absolute i out = leb 1 i || (leb 1 (length out) && not (absolute && (length out == 1)))

abbrev slashed_out : Bool → Bytes → Bytes
slashed_out true out = out ++ b'/' ∷ []
slashed_out false out = out

unfoldable pub write_components : ℕ → Bool → ℕ → Bytes → List Bytes → Option Bytes
write_components outsz absolute i out [] = some out
write_components outsz absolute i out (seg ∷ segs) =
    let slash = needs_slash absolute i out in
    let out' = slashed_out slash out in
    if (slash && leb outsz (length out + 1)) || leb outsz (length out' + length seg)
    then none
    else write_components outsz absolute (i + 1) (out' ++ seg) segs

abbrev pub is_absolute : Bytes → Bool
is_absolute [] = false
is_absolute (c ∷ s) = c == b'/'

-- The slash of an absolute path, which needs two bytes.
abbrev root_of : Bool → ℕ → Option Bytes
root_of false outsz = some []
root_of true outsz = if leb outsz 1 then none else some (b'/' ∷ [])

abbrev or_dot : ℕ → Bytes → Option Bytes
or_dot outsz [] = if ltb outsz 2 then none else some (codes ".")
or_dot outsz (c ∷ s) = some (c ∷ s)

-- The normal form of the pieces of a path, in `outsz` bytes; `none` for -1.
unfoldable pub normal_form : Bool → List Bytes → ℕ → Option Bytes
normal_form absolute segs outsz = if outsz == 0 then none else elim (components absolute [] segs) [
  | none ↦ none
  | some comps ↦ elim (root_of absolute outsz) [
    | none ↦ none
    | some root ↦ elim (write_components outsz absolute 0 root (first_to_last comps [])) [
      | none ↦ none
      | some out ↦ or_dot outsz out
    ]
  ]
]

-- `hpu_path_normalize`
unfoldable pub path_normalize : Bytes → ℕ → Option Bytes
path_normalize path outsz = normal_form (is_absolute path) (segments path) outsz

-- A relative path that begins with two steps up has the normal form of the path without them.
pub path_normalize_two_up :
    (path : Bytes) (outsz : ℕ)
    → is_absolute path ≡ false
    → path_normalize (codes "../../" ++ path) outsz ≡ path_normalize path outsz
unfolding path_normalize normal_form segments components
path_normalize_two_up path outsz relative =
    sym (ap (λ a. normal_form a (segments path) outsz) relative)
