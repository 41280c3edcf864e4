-- ===== src/Conf/File.antt =====
-- src/conf/conf_file.c: sections in their order, the callback of a line, and loading a file.
use hpulogc.Prelude.{
  ℕ, zero, suc, ◌*◌, Bool, true, false, ◌&&◌, ◌||◌, not, List, [], ◌∷◌, Option, none, some,
  if◌then◌else◌, leb, ltb, ◌==◌, length, Bytes, codes, same, ℤ, pos, negsuc,
}
use hpulogc.Conf.Result.{Result, ok, err, ◌>>=◌, ◌>>◌, guard, or_fail, err_config}
use hpulogc.Conf.Model.{max_name_len, max_path_len, ConfOutput, Conf}
use hpulogc.Conf.Lexer.{max_line, parse_file}
use hpulogc.Conf.Values.{index_of, parse_bool, strip_quotes, trim, clipped}
use hpulogc.Conf.Global.{
  Build, parse_global, parse_buffer_key, parse_async, parse_throttle, parse_advanced,
}
use hpulogc.Conf.Lines.{split_at, parse_formats, parse_outputs}
use hpulogc.Conf.RuleLine.{parse_rules, parse_build}

-- `g_section_names`; a section is its rank.
abbrev pub section_names : List Bytes
section_names =
    codes "build"
    ∷ codes "global"
    ∷ codes "formats"
    ∷ codes "outputs"
    ∷ codes "buffer"
    ∷ codes "async"
    ∷ codes "throttle"
    ∷ codes "rules"
    ∷ codes "advanced"
    ∷ []

-- `conf_parser_t`; `none` is `SEC_NONE`.
pub record Parser : Type 0 where
  pub conf : Conf
  pub strict : Bool
  pub cur_section : Option ℕ
  pub seen : ℕ → Bool
  pub failure : ℤ

-- The name between the brackets of a header.
unfoldable pub header_name : Bytes → Option Bytes
header_name [] = none
header_name (c ∷ s) = elim (split_at 93 s) [
  | none ↦ none
  | some (name, rest) ↦
      if (length name == 0) || leb max_name_len (length name) || not (length rest == 0)
      then none
      else some name
]

-- A section comes once, and after those of a lower rank.
abbrev pub in_order : Parser → ℕ → Bool
in_order ps rank =
    not (ps.seen rank) && elim ps.cur_section [ none ↦ true | some cur ↦ ltb cur rank ]

unfoldable pub enter : Parser → Bytes → Result Parser
enter ps line = do
  name ← or_fail (header_name line) err_config
  rank ← or_fail (index_of 0 section_names name) err_config
  guard (in_order ps rank) err_config
  ok (record ps { cur_section = some rank; seen = λ k. if k == rank then true else ps.seen k })

-- The key and the value of a line, of which `buf` has room for 2047 bytes.
unfoldable pub key_value : Bytes → Option (Bytes × Bytes)
key_value line = elim (split_at 61 (clipped (max_line * 2) line)) [
  | none ↦ none
  | some (k, v) ↦ some (trim k, strip_quotes (trim v))
]

-- The build, the compiler of formats, the registry of sinks, and the sampling rate's divisor.
pub record Uses : Type 0 where
  pub build : Build
  pub compiles : Bytes → Bytes → Bool
  pub registered : Bytes → Bool
  pub divisor : Bytes → ℕ

abbrev pub is_header : Bytes → Bool
is_header [] = false
is_header (c ∷ s) = c == b'['

-- `parse_fail`, or the parser that goes on.
abbrev pub parsed : Parser → Result Parser → ℤ × Parser
parsed ps (ok ps') = (pos 0, ps')
parsed ps (err e) = (err_config, record ps { failure = err_config })

-- After a failure no line is looked at.
abbrev pub unless_failed : ℤ → Parser → ℤ × Parser → ℤ × Parser
unless_failed (pos zero) ps r = r
unless_failed (pos (suc n)) ps r = (pos (suc n), ps)
unless_failed (negsuc n) ps r = (negsuc n, ps)

module _ (uses : Uses) where
  unfoldable pub parse_key_value : Option ℕ → Bool → Conf → Bytes → Bytes → Result Conf
  parse_key_value none strict c k v = err err_config
  parse_key_value (some rank) strict c k v =
      if rank == 0
      then parse_build c k v
      else if rank == 1
      then parse_global uses.build strict c k v
      else if rank == 2
      then parse_formats uses.compiles c k v
      else if rank == 3
      then parse_outputs uses.registered strict c k v
      else if rank == 4
      then parse_buffer_key strict c k v
      else if rank == 5
      then (if uses.build.has_async then parse_async strict c k v else ok c)
      else if rank == 6
      then (if uses.build.has_throttle then parse_throttle uses.divisor strict c k v else ok c)
      else if rank == 7
      then parse_rules c k v
      else if rank == 8
      then parse_advanced strict c k v
      else err err_config

  unfoldable pub set_key : Parser → Bytes → Result Parser
  set_key ps line = do
    (k, v) ← or_fail (key_value line) err_config
    guard (leb 1 (length k)) err_config
    guard (leb 1 (length v) || same k (codes "default outputs")) err_config
    c ← parse_key_value ps.cur_section ps.strict ps.conf k v
    ok (record ps { conf = c })

  -- `conf_line_cb`
  unfoldable pub conf_line_cb : Bytes → ℕ → Parser → ℤ × Parser
  conf_line_cb line n ps =
      unless_failed ps.failure ps
        (parsed ps (if is_header line then enter ps line else set_key ps line))

-- `strict_scan_cb`, on the value that the scan has found.
unfoldable pub strict_scan_cb : Bytes → ℕ → Bool → ℤ × Bool
strict_scan_cb line n found =
    if elim line [ [] ↦ false | c ∷ s ↦ c == b'[' ] then (pos 0, found) else elim (key_value line) [
      | none ↦ (pos 0, found)
      | some (k, v) ↦
          if same k (codes "strict init")
          then elim (parse_bool v) [ none ↦ (pos 0, found) | some x ↦ (pos 1, x) ]
          else (pos 0, found)
    ]

-- The pointers of an output, taken anew from its arrays.
abbrev pub rederived : ConfOutput → ConfOutput
rederived o = record o {
  desc = record o.desc {
    path = if length o.path_buf == 0 then none else some o.path_buf;
    rotate_naming = if o.is_generic then none else some o.naming_buf;
  };
}

unfoldable pub rederive_all : List ConfOutput → List ConfOutput
rederive_all [] = []
rederive_all (o ∷ os) = rederived o ∷ rederive_all os

abbrev pub first_parser : Conf → Bool → Parser
first_parser c strict = record {
  conf = c;
  strict = strict;
  cur_section = none;
  seen = λ k. false;
  failure = pos 0;
}

abbrev pub loaded_conf : Bytes → Conf → Conf
loaded_conf path c = record c {
  outputs = rederive_all c.outputs;
  source_path = clipped max_path_len path;
}

-- The result by the code of the parsing and the first error of the callback.
abbrev pub finished_load : Bytes → Conf → ℤ → ℤ → Result Conf
finished_load path c (pos zero) (pos zero) = ok (loaded_conf path c)
finished_load path c (pos zero) (pos (suc n)) = err (pos (suc n))
finished_load path c (pos zero) (negsuc n) = err (negsuc n)
finished_load path c (pos (suc n)) failure = err err_config
finished_load path c (negsuc n) failure = err err_config

module _ (uses : Uses) (regular : Bytes → Bool) (fopen : Bytes → Option Bytes) where
  -- `strict < 0`: the value that the file gives; 1 where the scan fails, too.
  unfoldable pub effective_strict : Option Bool → Bytes → Option Bool
  effective_strict (some strict) path = some strict
  effective_strict none path = elim (parse_file strict_scan_cb regular fopen true (some path)) [
    | none ↦ none
    | some (lx, rc) ↦ elim rc [
      | pos n ↦ some (if leb n 1 then lx.user else true)
      | negsuc n ↦ some true
    ]
  ]

  -- `hpu_conf_load_file`
  unfoldable pub load_file : Conf → Bytes → Option Bool → Option (Result Conf)
  load_file c path strict = elim (effective_strict strict path) [
    | none ↦ none
    | some s ↦ elim (parse_file (conf_line_cb uses) regular fopen (first_parser c s) (some path)) [
      | none ↦ none
      | some (lx, rc) ↦ some (finished_load path lx.user.conf rc lx.user.failure)
    ]
  ]
