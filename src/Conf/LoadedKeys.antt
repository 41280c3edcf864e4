-- ===== src/Conf/LoadedKeys.antt =====
-- src/conf/conf_file.c: what the keys of an output keep.
use hpulogc.Prelude.{
  ℕ, ◌*◌, ◌<◌, Bool, not, List, [], ◌∷◌, some, if◌then◌else◌, ltb, ◌==◌, ltb→lt, length, Bytes,
  codes, same, pos,
}
use hpulogc.Conf.Result.{
  err_config, Ensures, ensured, failing, Ensures-bind, Ensures-or_fail, Ensures-guard, Ensures-if,
}
use hpulogc.Conf.Model.{max_path_len, max_fmt_len, max_sink_kv, Output, ConfOutput}
use hpulogc.Conf.Declared.{store_pair}
use hpulogc.Conf.Values.{clamped, octal_mode, trim, strip_quotes}
use hpulogc.Conf.Global.{clamp_size}
use hpulogc.Conf.Lines.{split_at, flat_key, output_key, output_keys}
use hpulogc.Conf.Accepted.{IsOutput}
use hpulogc.Conf.SinkBounds.{stored, store_pair-IsOutput}

-- Another path and another naming template that fit.
pub changed :
    (o : ConfOutput) (d : Output) (path naming : Bytes)
    → IsOutput o
    → length path < max_path_len
    → length naming < max_fmt_len
    → IsOutput (record o { desc = d; path_buf = path; naming_buf = naming })
changed o d path naming h p n = record {
  name = h.name;
  type_fits = h.type_fits;
  path = p;
  naming = n;
  pairs = h.pairs;
  pool = h.pool;
  pool_fits = h.pool_fits;
}

common :
    (o : ConfOutput) (enabled async : Bool) (size : ℕ)
    → IsOutput o
    → IsOutput (record o { enabled = enabled; async = async; queue_size = size })
common o enabled async size h = record {
  name = h.name;
  type_fits = h.type_fits;
  path = h.path;
  naming = h.naming;
  pairs = h.pairs;
  pool = h.pool;
  pool_fits = h.pool_fits;
}

flat_key-IsOutput :
    (strict : Bool) (o : ConfOutput) (k v : Bytes)
    → IsOutput o
    → Ensures IsOutput (flat_key strict o k v)
unfolding flat_key
flat_key-IsOutput strict o k v h =
    let d = o.desc in
    let set : (d' : Output) → IsOutput (record o { desc = d' }) =
      λ d'. changed o d' o.path_buf o.naming_buf h h.path h.naming in
    Ensures-if (same k (codes "stream"))
      (λ _. Ensures-or_fail _ err_config λ x e. ensured _ (set (record d { stream = pos x })))
      λ _.
        Ensures-if (same k (codes "color"))
          (λ _.
            Ensures-or_fail _ err_config
              λ x e. ensured _ (set (record d { color = pos (if x then 1 else 0) })))
          λ _.
            Ensures-if (same k (codes "path"))
              (λ _. Ensures-guard (ltb (length v) max_path_len) err_config λ e.
                ensured _
                  (changed o (record d { path = some v }) v o.naming_buf h (ltb→lt _ _ e) h.naming))
              λ _.
                Ensures-if (same k (codes "rotate"))
                  (λ _.
                    Ensures-or_fail _ err_config
                      λ x e. ensured _ (set (record d { rotate = pos x })))
                  λ _.
                    Ensures-if (same k (codes "max size"))
                      (λ _.
                        Ensures-or_fail _ err_config
                          λ x e. ensured _ (set (record d { max_size = x })))
                      λ _.
                        Ensures-if (same k (codes "time unit"))
                          (λ _.
                            Ensures-or_fail _ err_config
                              λ x e. ensured _ (set (record d { time_unit = pos x })))
                          λ _.
                            Ensures-if (same k (codes "max files"))
                              (λ _.
                                ensured _ (set (record d { max_files = pos (clamped v 0 100000) })))
                              λ _.
                                Ensures-if (same k (codes "fsync"))
                                  (λ _. Ensures-or_fail _ err_config λ x e.
                                    ensured _ (set (record d { fsync = pos (if x then 1 else 0) })))
                                  λ _.
                                    Ensures-if (same k (codes "symlink latest"))
                                      (λ _. Ensures-or_fail _ err_config λ x e. ensured _ (
                                        set
                                          (record d { symlink_latest = pos (if x then 1 else 0) })))
                                      λ _.
                                        Ensures-if (same k (codes "rotate naming"))
                                          (λ _.
                                            Ensures-guard (ltb (length v) max_fmt_len) err_config
                                              λ e. ensured _ (
                                                changed o (record d { rotate_naming = some v })
                                                  o.path_buf v h h.path (ltb→lt _ _ e)))
                                          λ _.
                                            Ensures-if (same k (codes "file perms"))
                                              (λ _.
                                                ensured _
                                                  (set (record d { file_mode = octal_mode v })))
                                              λ _.
                                                Ensures-if (same k (codes "dir perms"))
                                                  (λ _.
                                                    ensured _
                                                      (set (record d { dir_mode = octal_mode v })))
                                                  λ _.
                                                    Ensures-if strict (λ _. failing err_config)
                                                      (λ _. ensured o h)

output_key-IsOutput :
    (strict : Bool) (o : ConfOutput) (k v : Bytes)
    → IsOutput o
    → Ensures IsOutput (output_key strict o k v)
unfolding output_key
output_key-IsOutput strict o k v h =
    Ensures-if (same k (codes "enabled"))
      (λ _. Ensures-or_fail _ err_config λ x e. ensured _ (common o x o.async o.queue_size h))
      λ _.
        Ensures-if (same k (codes "async"))
          (λ _.
            Ensures-or_fail _ err_config
              λ x e. ensured _ (common o o.enabled (not (x == 0)) o.queue_size h))
          λ _.
            Ensures-if (same k (codes "queue size"))
              (λ _. Ensures-or_fail _ err_config λ x e.
                ensured _
                  (common o o.enabled o.async (clamp_size (64 * 1024) (16 * 1024 * 1024) x) h))
              λ _.
                Ensures-if o.is_generic
                  (λ _. Ensures-guard (ltb (length o.kvs) max_sink_kv) err_config λ room.
                    stored (store_pair o k v) err_config
                      λ o' e. store_pair-IsOutput o o' k v h (ltb→lt _ _ room) e)
                  λ _. flat_key-IsOutput strict o k v h

pub output_keys-IsOutput :
    (strict : Bool) (o : ConfOutput) (ps : List Bytes)
    → IsOutput o
    → Ensures IsOutput (output_keys strict o ps)
unfolding output_keys
output_keys-IsOutput strict o [] h = ensured o h
output_keys-IsOutput strict o (p ∷ ps) h = Ensures-or_fail (split_at 61 p) err_config λ kv e.
    Ensures-bind (output_key-IsOutput strict o (trim kv.0) (strip_quotes (trim kv.1)) h)
      λ o' h'. output_keys-IsOutput strict o' ps h'
