-- ===== src/Conf/Lexer.antt =====
-- src/conf/ini.c: physical lines, comments, continuation lines, and the two entry points.
use hpulogc.Prelude.{
  ℕ, zero, suc, ◌+◌, ◌-◌, ◌*◌, ◌%◌, Bool, true, false, not, ◌&&◌, ◌||◌, [], ◌∷◌, ◌++◌, Option, none,
  some, if◌then◌else◌, leb, ◌==◌, length, Bytes, ℤ, pos, negsuc,
}
use hpulogc.Conf.Result.{err_invalid_arg, err_config}

-- `HPU_INI_MAX_LINE` and `HPU_INI_MAX_LOGICAL`
abbrev pub max_line : ℕ
max_line = 1024

abbrev pub max_logical : ℕ
max_logical = 4 * max_line

-- `ini_lexer_t`, with the context of the callback and what `*err_line` holds.
pub record Lexer (U : Type 0) : Type 0 where
  pub logical : Bytes
  pub logical_start : ℕ
  pub user : U
  pub err_line : ℕ

-- Up to the first `#` outside of quotes; the flag is `in_quotes`.
unfoldable pub cut_comment : Bool → Bytes → Bytes
cut_comment q [] = []
cut_comment q (c ∷ s) =
    let rest = cut_comment (if c == b'"' then not q else q) s in
    if c == b'#' && not q then [] else c ∷ rest

-- Without the bytes at the end that pass the test.
unfoldable pub trim_tail : (ℕ → Bool) → Bytes → Bytes
trim_tail p [] = []
trim_tail p (c ∷ s) = elim (trim_tail p s) [ [] ↦ (if p c then [] else c ∷ []) | d ∷ t ↦ c ∷ d ∷ t ]

abbrev pub soft_white : ℕ → Bool
soft_white c = c == 32 || c == 9 || c == 13

abbrev pub white : ℕ → Bool
white c = c == 32 || c == 9 || c == 13 || c == 10

unfoldable pub strip_comment_and_trim : Bytes → Bytes
strip_comment_and_trim line = trim_tail white (cut_comment false line)

-- How many backslashes stand at the end.
unfoldable pub backslashes : Bytes → ℕ
backslashes [] = 0
backslashes (c ∷ s) = let n = backslashes s in if (c == 92) && (n == length s) then suc n else n

unfoldable pub but_last : Bytes → Bytes
but_last [] = []
but_last (c ∷ []) = []
but_last (c ∷ d ∷ s) = c ∷ but_last (d ∷ s)

-- A line without the backslash that continues it, or that is one of a pair.
unfoldable pub line_body : Bytes → Bytes
line_body line =
    if backslashes line % 2 == 1
    then but_last line
    else (if leb 2 (backslashes line) then but_last line else line)

-- The bytes of a C string.
unfoldable pub c_string : Bytes → Bytes
c_string [] = []
c_string (c ∷ s) = if c == 0 then [] else c ∷ c_string s

-- `fgets` with room for `n` bytes: the bytes, the end-of-file flag after them, and the bytes left.
unfoldable pub fgets : ℕ → Bytes → Bytes × Bool × Bytes
fgets zero s = ([], false, s)
fgets (suc n) [] = ([], true, [])
fgets (suc n) (c ∷ s) =
    let (line, eof, rest) = fgets n s in
    if c == 10 then (c ∷ [], false, s) else (c ∷ line, eof, rest)

-- The bytes before the next newline and those behind it; `none` where they do not fit `phys`.
unfoldable pub phys_line : ℕ → Bytes → Option (Bytes × Bytes)
phys_line room [] = some ([], [])
phys_line room (c ∷ s) = if c == 10 then some ([], s) else elim room [
  | zero ↦ none
  | suc n ↦ elim (phys_line n s) [ none ↦ none | some (line, rest) ↦ some (c ∷ line, rest) ]
]

abbrev pub ends_in_newline : Bytes → Bool
ends_in_newline [] = false
ends_in_newline (c ∷ []) = c == 10
ends_in_newline (c ∷ d ∷ s) = ends_in_newline (d ∷ s)

-- `cb` is the line callback, on its context.
module _ {U : Type 0} (cb : Bytes → ℕ → U → ℤ × U) where
  abbrev pub at_start : U → Lexer U
  at_start u = record { logical = []; logical_start = 0; user = u; err_line = 0 }

  abbrev pub failed : Lexer U → ℕ → Lexer U × ℤ
  failed lx n = (record lx { err_line = n }, err_config)

  abbrev pub called : Lexer U → Bytes → Lexer U × ℤ
  called lx [] = (record lx { logical = []; logical_start = 0 }, pos 0)
  called lx (c ∷ s) =
      let (rc, u) = cb (c ∷ s) lx.logical_start lx.user in
      (record lx { logical = []; logical_start = 0; user = u }, rc)

  abbrev pub delivered : Lexer U → Bytes → Lexer U × ℤ
  delivered lx [] = (lx, pos 0)
  delivered lx (c ∷ s) = called lx (strip_comment_and_trim (c ∷ s))

  unfoldable pub deliver : Lexer U → Lexer U × ℤ
  deliver lx = delivered lx lx.logical

  -- The start of a logical line that holds `body` from this line.
  abbrev pub start_line : Lexer U → Bytes → ℕ → ℕ
  start_line lx body n =
      if leb 1 (length body) && (length lx.logical == 0) && (lx.logical_start == 0)
      then n
      else lx.logical_start

  abbrev pub joined : Lexer U → Bytes → ℕ → Lexer U
  joined lx body n = record lx {
    logical = lx.logical ++ body;
    logical_start = start_line lx body n;
  }

  -- A physical line without its comment and its blanks at the end.
  unfoldable pub join_line : Lexer U → Bytes → ℕ → Bool → Lexer U × ℤ
  join_line lx line n is_last =
      if leb max_logical (length lx.logical + length (line_body line) + 1)
      then failed lx (if lx.logical_start == 0 then n else lx.logical_start)
      else if (backslashes line % 2 == 1) && not is_last
      then (joined lx (line_body line) n, pos 0)
      else deliver (joined lx (line_body line) n)

  unfoldable pub process_line : Lexer U → Bytes → ℕ → Bool → Lexer U × ℤ
  process_line lx phys n is_last =
      if leb max_line (length phys)
      then failed lx n
      else join_line lx (trim_tail soft_white (cut_comment false phys)) n is_last

  -- `if (rc != 0) return rc;`
  abbrev pub unless_stopped : Lexer U × ℤ → (Lexer U → Option (Lexer U × ℤ)) → Option (Lexer U × ℤ)
  unless_stopped (lx, pos zero) k = k lx
  unless_stopped (lx, pos (suc n)) k = some (lx, pos (suc n))
  unless_stopped (lx, negsuc n) k = some (lx, negsuc n)

  -- The loop over a text, `n` lines before. A line takes a byte of the text at least; `none` means
  -- that the fuel ran out.
  unfoldable pub buffer_lines : ℕ → Lexer U → Bytes → ℕ → Option (Lexer U × ℤ)
  buffer_lines zero lx text n = none
  buffer_lines (suc fuel) lx [] n = some (deliver lx)
  buffer_lines (suc fuel) lx (c ∷ s) n = elim (phys_line (max_line - 1) (c ∷ s)) [
    | none ↦ some (failed lx (n + 1))
    | some (line, rest) ↦
        unless_stopped (process_line lx line (n + 1) (length rest == 0))
          (λ lx'. buffer_lines fuel lx' rest (n + 1))
  ]

  unfoldable pub parse_buffer : U → Bytes → Option (Lexer U × ℤ)
  parse_buffer u text = buffer_lines (length text + 1) (at_start u) text 0

  -- What `fgets` gave is refused as too long, or processed and followed by the rest.
  unfoldable pub file_round :
      Bytes × Bool × Bytes
      → Lexer U
      → ℕ
      → (Lexer U → Bytes → Option (Lexer U × ℤ))
      → Option (Lexer U × ℤ)
  file_round (got, eof, rest) lx n go =
      let line = c_string got in
      if leb 1 (length line) && not (ends_in_newline line) && not eof
      then some (failed lx n)
      else unless_stopped (process_line lx line n eof) (λ lx'. go lx' rest)

  -- The loop over the bytes that a file holds.
  unfoldable pub file_lines : ℕ → Lexer U → Bytes → ℕ → Option (Lexer U × ℤ)
  file_lines zero lx content n = none
  file_lines (suc fuel) lx [] n = some (deliver lx)
  file_lines (suc fuel) lx (c ∷ s) n =
      file_round (fgets (max_line - 1) (c ∷ s)) lx (n + 1)
        (λ lx' rest. file_lines fuel lx' rest (n + 1))

  -- The file system: which paths are regular files, and the bytes that opening one gives.
  module _ {FilePath : Type 0} (regular : FilePath → Bool) (fopen : FilePath → Option Bytes) where
    unfoldable pub parse_file : U → Option FilePath → Option (Lexer U × ℤ)
    parse_file u none = some (at_start u, err_invalid_arg)
    parse_file u (some path) =
        if regular path
        then elim (fopen path) [
          | none ↦ some (at_start u, err_config)
          | some content ↦ file_lines (length content + 1) (at_start u) content 0
        ]
        else some (at_start u, err_config)
