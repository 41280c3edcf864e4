-- ===== src/Conf/Values.antt =====
-- src/conf/conf_file.c: the values of keys. A text is the bytes before its NUL.
use hpulogc.Prelude.{
  ℕ, zero, suc, ◌+◌, ◌-◌, ◌*◌, ◌%◌, ◌^◌, Bool, true, false, not, ◌&&◌, ◌||◌, List, [], ◌∷◌, Option,
  none, some, if◌then◌else◌, leb, ltb, ◌==◌, length, take, Bytes, codes, ℤ, pos, negsuc,
}
use hpulogc.Fields.Keys.{skip_blanks, trim_end}
use hpulogc.Conf.Declared.{is_digit}

-- `tolower` in the C locale
abbrev pub lower : ℕ → ℕ
lower c = if leb 65 c && leb c 90 then c + 32 else c

-- `eqcase`
unfoldable pub eqcase : Bytes → Bytes → Bool
eqcase [] [] = true
eqcase (a ∷ s) (b ∷ t) = lower a == lower b && eqcase s t
eqcase _ _ = false

-- The index of a name in a table, its letters taken alike; for the keywords of a key too.
unfoldable pub index_of : ℕ → List Bytes → Bytes → Option ℕ
index_of i [] v = none
index_of i (n ∷ ns) v = if eqcase v n then some i else index_of (i + 1) ns v

unfoldable pub parse_bool : Bytes → Option Bool
parse_bool v =
    if eqcase v (codes "true")
    then some true
    else if eqcase v (codes "false")
    then some false
    else none

abbrev pub level_names : List Bytes
level_names =
    codes "trace"
    ∷ codes "debug"
    ∷ codes "info"
    ∷ codes "warn"
    ∷ codes "error"
    ∷ codes "fatal"
    ∷ codes "off"
    ∷ []

unfoldable pub parse_level : Bytes → Option ℕ
parse_level v = index_of 0 level_names v

-- `isspace` in the C locale
abbrev pub space : ℕ → Bool
space c = c == 32 || (leb 9 c && leb c 13)

unfoldable pub skip_spaces : Bytes → Bytes
skip_spaces [] = []
skip_spaces (c ∷ s) = if space c then skip_spaces s else c ∷ s

-- The value of the digits at the start, on from `v`, and what follows them.
unfoldable pub digits : ℕ → Bytes → ℕ × Bytes
digits v [] = (v, [])
digits v (c ∷ s) =
    let more = digits (v * 10 + (c - 48)) s in if is_digit c then more else (v, c ∷ s)

abbrev pub starts_digit : Bytes → Bool
starts_digit [] = false
starts_digit (c ∷ s) = is_digit c

abbrev pub signed : Bytes → Bool × Bytes
signed [] = (false, [])
signed (c ∷ s) = if c == b'-' then (true, s) else (if c == b'+' then (false, s) else (false, c ∷ s))

-- A decimal number of C: spaces, a sign, digits. `none` where there are no digits, so that nothing is
-- read.
unfoldable pub scan_number : Bytes → Option (Bool × ℕ × Bytes)
scan_number v =
    let (neg, s) = signed (skip_spaces v) in
    let (n, rest) = digits 0 s in if starts_digit s then some (neg, n, rest) else none

unfoldable pub to_long : Bool → ℕ → ℤ
to_long false n = pos (if ltb n (2 ^ 63) then n else 2 ^ 63 - 1)
to_long true zero = pos 0
to_long true (suc n) = negsuc (if ltb n (2 ^ 63) then n else 2 ^ 63 - 1)

-- `strtol(v, NULL, 10)` with 64 bits, at its limits where the number is beyond them.
unfoldable pub strtol : Bytes → ℤ
strtol v = elim (scan_number v) [ none ↦ pos 0 | some (neg, n, rest) ↦ to_long neg n ]

unfoldable pub octal_digits : ℕ → Bytes → ℕ
octal_digits n [] = n
octal_digits n (c ∷ s) =
    let more = octal_digits (n * 8 + (c - 48)) s in if leb 48 c && leb c 55 then more else n

-- `(unsigned)strtol(v, NULL, 8) & 07777`
unfoldable pub octal_mode : Bytes → ℕ
octal_mode v =
    let (neg, s) = signed (skip_spaces v) in
    let n = octal_digits 0 s in
    if neg
    then (if leb n (2 ^ 63) then (2 ^ 63 - n) % 4096 else 0)
    else (if ltb n (2 ^ 63) then n % 4096 else 4095)

-- `strtoull(v, &end, 10)`: a number beyond 64 bits is the largest, and a minus negates modulo 2^64.
unfoldable pub strtoull : Bytes → Option (ℕ × Bytes)
strtoull v = elim (scan_number v) [
  | none ↦ none
  | some (neg, n, rest) ↦
      some
        ((if leb (2 ^ 64) n then 2 ^ 64 - 1 else (if neg then (2 ^ 64 - n) % 2 ^ 64 else n)), rest)
]

-- The factor of the suffix, in its lower letters.
unfoldable pub suffix_factor : Bytes → Option ℕ
suffix_factor [] = some 1
suffix_factor (c ∷ []) =
    if lower c == b'k'
    then some 1000
    else (if lower c == b'm'
        then some 1000000
        else (if lower c == b'g' then some 1000000000 else none))
suffix_factor (c ∷ d ∷ []) =
    if not (lower d == b'b')
    then none
    else (if lower c == b'k'
        then some 1024
        else (if lower c == b'm'
            then some 1048576
            else (if lower c == b'g' then some 1073741824 else none)))
suffix_factor (c ∷ d ∷ e ∷ s) = none

unfoldable pub parse_size : Bytes → Option ℕ
parse_size v = elim (strtoull v) [
  | none ↦ none
  | some (n, end) ↦ elim (suffix_factor end) [ none ↦ none | some f ↦ some (n * f % 2 ^ 64) ]
]

abbrev pub ends_in_quote : Bytes → Bool
ends_in_quote [] = false
ends_in_quote (c ∷ []) = c == b'"'
ends_in_quote (c ∷ d ∷ s) = ends_in_quote (d ∷ s)

-- Without the quotes around it, if there are two.
unfoldable pub strip_quotes : Bytes → Bytes
strip_quotes [] = []
strip_quotes (c ∷ s) = if c == b'"' && ends_in_quote s then take (length s - 1) s else c ∷ s

-- One part up to the next comma outside of quotes, and what follows the comma.
unfoldable pub csv_part : Bool → Bytes → Bytes × Option Bytes
csv_part q [] = ([], none)
csv_part q (c ∷ s) =
    let (part, rest) = csv_part (if c == b'"' then not q else q) s in
    if c == b',' && not q then ([], some s) else (c ∷ part, rest)

-- `split_csv` into at most `max` parts; the scan stops behind the last of them, which therefore keeps
-- the commas that follow.
unfoldable pub csv_parts : ℕ → Bytes → List Bytes
csv_parts zero s = []
csv_parts (suc zero) s = s ∷ []
csv_parts (suc (suc n)) s =
    let (part, rest) = csv_part false s in
    elim rest [ none ↦ part ∷ [] | some r ↦ part ∷ csv_parts (suc n) r ]

abbrev pub split_csv : Bytes → ℕ → List Bytes
split_csv [] max = []
split_csv (c ∷ s) max = csv_parts max (c ∷ s)

unfoldable pub trim : Bytes → Bytes
trim s = trim_end (skip_blanks s)

-- `snprintf(buf, n, "%s", s)`
abbrev pub clipped : ℕ → Bytes → Bytes
clipped n s = take (n - 1) s

-- `clamp_long`, from a bound that is not negative.
unfoldable pub clamp_long : ℤ → ℕ → ℕ → ℕ
clamp_long (pos v) lo hi = if ltb v lo then lo else (if ltb hi v then hi else v)
clamp_long (negsuc v) lo hi = lo

abbrev pub clamped : Bytes → ℕ → ℕ → ℕ
clamped v lo hi = clamp_long (strtol v) lo hi
