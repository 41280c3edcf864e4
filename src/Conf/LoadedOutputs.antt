-- ===== src/Conf/LoadedOutputs.antt =====
-- src/conf/conf_file.c: what a line of [outputs] makes.
use hpulogc.Prelude.{
  ◌+◌, ◌≡◌, refl, Bool, not, ◌&&◌, ◌||◌, List, [], ◌∷◌, ◌++◌, Option, none, some, ltb, arith,
  ltb→lt, length, length-append, length-take, Bytes, codes, pos,
}
use hpulogc.Conf.Result.{
  err_config, Ensures, ensured, failing, Ensures-bind, Ensures-guard, Ensures-if,
}
use hpulogc.Conf.Model.{max_outputs, max_name_len, is_num, ConfOutput, Conf}
use hpulogc.Conf.Values.{eqcase, trim, split_csv}
use hpulogc.Conf.Lines.{
  new_output, default_naming, named_archive, has_path, finish_output, output_type, output_parts,
  fresh_name, parse_outputs,
}
use hpulogc.Conf.Accepted.{All-append, IsName, IsOutput}
use hpulogc.Conf.Limited.{IsLoaded, files_later}
use hpulogc.Conf.LoadedKeys.{changed, output_keys-IsOutput}

new_output-IsOutput : (name : Bytes) → IsName name → IsOutput (new_output name)
new_output-IsOutput name h = record {
  name = h;
  type_fits = omega arith;
  path = omega arith;
  naming = omega arith;
  pairs = omega arith;
  pool = refl;
  pool_fits = omega arith;
}

finish_output-IsOutput : (o : ConfOutput) → IsOutput o → Ensures IsOutput (finish_output o)
unfolding finish_output
finish_output-IsOutput o h =
    Ensures-if o.is_generic (λ _. ensured o h)
      λ _.
        Ensures-if (is_num o.desc.type 1 && not (has_path o.desc)) (λ _. failing err_config)
          λ _. ensured (named_archive o) (archived o.desc.rotate_naming)
  where
    archived :
        (n : Option Bytes)
        → IsOutput (elim n [
          | some t ↦ o
          | none ↦ record o {
            naming_buf = default_naming;
            desc = record o.desc { rotate_naming = some default_naming };
          }
        ])
    archived none =
        changed o (record o.desc { rotate_naming = some default_naming }) o.path_buf default_naming
          h h.path (omega arith)
    archived (some t) = h

module _ (registered : Bytes → Bool) where
  output_type-IsOutput :
      (o : ConfOutput) (type : Bytes)
      → IsOutput o
      → Ensures IsOutput (output_type registered o type)
  unfolding output_type
  output_type-IsOutput o type h =
      Ensures-if (eqcase type (codes "console"))
        (λ _.
          ensured _
            (changed o (record o.desc { type = pos 0 }) o.path_buf o.naming_buf h h.path h.naming))
        λ _.
          Ensures-if (eqcase type (codes "file"))
            (λ _. ensured _ (
              changed o (record o.desc { type = pos 1 }) o.path_buf o.naming_buf h h.path h.naming))
            λ _.
              Ensures-if
                (eqcase type (codes "syslog") || eqcase type (codes "null") || registered type)
                (λ _. ensured _ (record {
                  name = h.name;
                  type_fits = omega (arith, length-take 63 type);
                  path = h.path;
                  naming = h.naming;
                  pairs = h.pairs;
                  pool = h.pool;
                  pool_fits = h.pool_fits;
                }))
                λ _. failing err_config

  output_parts-IsOutput :
      (strict : Bool) (name : Bytes) (parts : List Bytes)
      → IsName name
      → Ensures IsOutput (output_parts registered strict name parts)
  unfolding output_parts
  output_parts-IsOutput strict name [] h = failing err_config
  output_parts-IsOutput strict name (t ∷ parts) h =
      Ensures-bind (output_type-IsOutput (new_output name) (trim t) (new_output-IsOutput name h))
        λ o v.
          Ensures-bind (output_keys-IsOutput strict o parts v) λ o' v'. finish_output-IsOutput o' v'

  pub parse_outputs-IsLoaded :
      (strict : Bool) (c : Conf) (key v : Bytes)
      → IsLoaded c
      → Ensures IsLoaded (parse_outputs registered strict c key v)
  unfolding parse_outputs
  parse_outputs-IsLoaded strict c key v h = Ensures-guard (fresh_name c key) err_config λ unique.
      Ensures-guard (ltb (length key) max_name_len) err_config λ short.
        Ensures-guard (ltb (length c.outputs) max_outputs) err_config λ room.
          Ensures-bind (output_parts-IsOutput strict key (split_csv v 32) (ltb→lt _ _ short))
            λ o fits.
              let size : length (c.outputs ++ o ∷ []) ≡ length c.outputs + 1 =
                length-append c.outputs (o ∷ []) in
              ensured (record c { outputs = c.outputs ++ o ∷ [] })
                (
                  h.0,
                  record {
                    output_count = ground (arith, room);
                    outputs_ok = All-append IsOutput c.outputs (o ∷ []) h.1.outputs_ok (fits, tt);
                    rule_count = h.1.rule_count;
                    rules_ok = rw size (files_later (length c.outputs) 1 c.rules h.1.rules_ok);
                  },
                  h.2,
                  h.3,
                  h.4,
                )
