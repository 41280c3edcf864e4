-- ===== src/Conf/Loaded.antt =====
-- src/conf/conf_file.c: what the keys of [global], [buffer], [async], [throttle] and [advanced] keep.
use hpulogc.Prelude.{
  ℕ, ◌≤◌, ◌<◌, Bool, true, false, ◌||◌, List, ltb, arith, ltb→lt, length, Bytes, codes, same,
}
use hpulogc.Conf.Result.{
  ok, ◌>>=◌, err_config, or_fail, Ensures, ensured, failing, Ensures-bind, Ensures-or_fail,
  Ensures-guard, Ensures-if,
}
use hpulogc.Conf.Model.{max_outputs, max_name_len, max_path_len, max_fmt_len, max_consumers, Conf}
use hpulogc.Conf.Values.{
  eqcase, index_of, parse_bool, parse_level, level_names, parse_size, split_csv, clipped, clamped,
  strtol,
}
use hpulogc.Conf.Global.{
  Build, unknown, keyword, parse_global, parse_buffer_key, parse_async, parse_throttle,
  parse_advanced,
}
use hpulogc.Conf.Accepted.{All, IsName}
use hpulogc.Conf.Limited.{
  AsyncOk, AdvancedOk, IsLoaded, clamp_long_bounds, index_of-lt, clipped-IsName,
  add_default_names-IsName,
}

module _ (c : Conf) (h : IsLoaded c) where
  -- A boolean key has no limit here, and neither has the choice among keywords.
  kept_bool :
      (v : Bytes) (f : Bool → Conf)
      → ((x : Bool) → IsLoaded (f x))
      → Ensures IsLoaded (or_fail (parse_bool v) err_config >>= λ x. ok (f x))
  kept_bool v f k = Ensures-or_fail (parse_bool v) err_config λ x e. ensured (f x) (k x)

  kept_keyword :
      (names : List Bytes) (v : Bytes) (f : ℕ → Conf)
      → ((x : ℕ) → x < length names → IsLoaded (f x))
      → Ensures IsLoaded (keyword names v >>= λ x. ok (f x))
  kept_keyword names v f k =
      Ensures-or_fail (index_of 0 names v) err_config
        λ x e. ensured (f x) (k x (omega (arith, index_of-lt 0 names v x e)))

  unknown-IsLoaded : (strict : Bool) → Ensures IsLoaded (unknown strict c)
  unknown-IsLoaded true = failing err_config
  unknown-IsLoaded false = ensured c h

  -- A new level, default format or list of names.
  new_global :
      (level : ℕ) (format : Bytes) (names : List Bytes)
      → level ≤ 6
      → IsName format
      → (length names ≤ max_outputs) × All IsName names
      → IsLoaded (record c { level = level; default_format = format; default_output_names = names })
  new_global level format names l f n =
      (record { level_ok = l; format_ok = f; count_ok = n.0; names_ok = n.1 }, h.1, h.2, h.3, h.4)

  pub parse_global-IsLoaded :
      (b : Build) (strict : Bool) (key v : Bytes) → Ensures IsLoaded (parse_global b strict c key v)
  unfolding parse_global parse_level
  parse_global-IsLoaded b strict key v =
      let g = h.0 in
      let names : (length c.default_output_names ≤ max_outputs)
          × All IsName c.default_output_names =
        (g.count_ok, g.names_ok) in
      Ensures-if (same key (codes "strict init")) (λ _. kept_bool v _ λ x. h)
        λ _.
          Ensures-if (same key (codes "level"))
            (λ _. kept_keyword level_names v _ λ x l.
              new_global x c.default_format c.default_output_names (omega arith) g.format_ok names)
            λ _.
              Ensures-if (same key (codes "default format"))
                (λ _. ensured _ (
                  new_global c.level (clipped max_name_len v) c.default_output_names g.level_ok
                    (clipped-IsName v) names))
                λ _.
                  Ensures-if (same key (codes "default outputs"))
                    (λ _.
                      Ensures-bind
                        (add_default_names-IsName c.default_output_names (split_csv v max_outputs)
                          g.count_ok g.names_ok)
                        λ added n.
                          ensured _
                            (new_global c.level c.default_format added g.level_ok g.format_ok n))
                    λ _.
                      Ensures-if (same key (codes "timezone")) (λ _. kept_keyword _ v _ λ x l. h)
                        λ _.
                          Ensures-if (same key (codes "timestamp source"))
                            (λ _. kept_keyword _ v _ λ x l. h)
                            λ _.
                              Ensures-if (same key (codes "time format")) (λ _. ensured _ h)
                                λ _.
                                  Ensures-if (same key (codes "encoding"))
                                    (λ _.
                                      Ensures-guard
                                        (eqcase v (codes "utf-8") || eqcase v (codes "utf8"))
                                        err_config λ e. ensured c h)
                                    λ _.
                                      Ensures-if (same key (codes "capture source loc"))
                                        (λ _.
                                          Ensures-if b.source_loc (λ _. kept_bool v _ λ x. h)
                                            (λ _. ensured c h))
                                        λ _.
                                          Ensures-if (same key (codes "newline"))
                                            (λ _. kept_keyword _ v _ λ x l. h)
                                            λ _.
                                              Ensures-if (same key (codes "pid format"))
                                                (λ _. kept_keyword _ v _ λ x l. h)
                                                λ _.
                                                  Ensures-if (same key (codes "tid format"))
                                                    (λ _. kept_keyword _ v _ λ x l. h)
                                                    λ _.
                                                      Ensures-if
                                                        (same key (codes "hot reload interval"))
                                                        (λ _. ensured _ h)
                                                        λ _.
                                                          Ensures-if
                                                            (same key (codes "signal reload"))
                                                            (λ _.
                                                            Ensures-if b.hot_reload
                                                            (λ _. kept_bool v _ λ x. h)
                                                            (λ _. ensured c h))
                                                            λ _. unknown-IsLoaded strict

  pub parse_buffer_key-IsLoaded :
      (strict : Bool) (key v : Bytes) → Ensures IsLoaded (parse_buffer_key strict c key v)
  unfolding parse_buffer_key
  parse_buffer_key-IsLoaded strict key v =
      Ensures-if (same key (codes "buffer size"))
        (λ _. Ensures-or_fail (parse_size v) err_config λ n e.
          ensured _
            (h.0, h.1, record { size_ok = ground arith; policy_ok = h.2.policy_ok }, h.3, h.4))
        λ _.
          Ensures-if (same key (codes "overflow policy"))
            (λ _. kept_keyword _ v _ λ x l.
              (h.0, h.1, record { size_ok = h.2.size_ok; policy_ok = omega arith }, h.3, h.4))
            λ _. unknown-IsLoaded strict

  -- New counts of a batch, of milliseconds and of consumers.
  new_async :
      (batch flush consumers : ℕ)
      → AsyncOk batch flush consumers
      → IsLoaded
          (record c { batch_size = batch; flush_interval_ms = flush; consumer_threads = consumers })
  new_async batch flush consumers a = (h.0, h.1, h.2, a, h.4)

  pub parse_async-IsLoaded :
      (strict : Bool) (key v : Bytes) → Ensures IsLoaded (parse_async strict c key v)
  unfolding parse_async
  parse_async-IsLoaded strict key v =
      let a = h.3 in
      let in_bounds : (lo hi : ℕ) → lo ≤ hi → (lo ≤ clamped v lo hi) × (clamped v lo hi ≤ hi) =
        clamp_long_bounds (strtol v) in
      Ensures-if (same key (codes "batch size"))
        (λ _. ensured _ (
          new_async (clamped v 1 65535) c.flush_interval_ms c.consumer_threads (record {
            batch_ok = in_bounds 1 65535 (omega arith);
            flush_ok = a.flush_ok;
            consumers_ok = a.consumers_ok;
          })))
        λ _.
          Ensures-if (same key (codes "flush interval"))
            (λ _. ensured _ (
              new_async c.batch_size (clamped v 1 60000) c.consumer_threads (record {
                batch_ok = a.batch_ok;
                flush_ok = in_bounds 1 60000 (omega arith);
                consumers_ok = a.consumers_ok;
              })))
            λ _.
              Ensures-if (same key (codes "shutdown timeout")) (λ _. ensured _ h)
                λ _.
                  Ensures-if (same key (codes "consumer threads"))
                    (λ _. ensured _ (
                      new_async c.batch_size c.flush_interval_ms (clamped v 1 max_consumers)
                        (record {
                          batch_ok = a.batch_ok;
                          flush_ok = a.flush_ok;
                          consumers_ok = in_bounds 1 max_consumers (omega arith);
                        })))
                    λ _. unknown-IsLoaded strict

  pub parse_throttle-IsLoaded :
      (divisor : Bytes → ℕ) (strict : Bool) (key v : Bytes)
      → Ensures IsLoaded (parse_throttle divisor strict c key v)
  unfolding parse_throttle
  parse_throttle-IsLoaded divisor strict key v =
      Ensures-if (same key (codes "global rate limit")) (λ _. ensured _ h)
        λ _.
          Ensures-if (same key (codes "per category rate limit")) (λ _. ensured _ h)
            λ _.
              Ensures-if (same key (codes "sampling rate")) (λ _. ensured _ h)
                λ _.
                  Ensures-if (same key (codes "burst size")) (λ _. ensured _ h)
                    λ _. unknown-IsLoaded strict

  new_advanced :
      (max_log : ℕ) (marker : Bytes) (crash : ℕ) (stats : Bytes)
      → AdvancedOk max_log marker crash stats
      → IsLoaded (record c {
        max_log_length = max_log;
        truncation_marker = marker;
        crash_safety = crash;
        stats_file = stats;
      })
  new_advanced max_log marker crash stats a = (h.0, h.1, h.2, h.3, a)

  pub parse_advanced-IsLoaded :
      (strict : Bool) (key v : Bytes) → Ensures IsLoaded (parse_advanced strict c key v)
  unfolding parse_advanced
  parse_advanced-IsLoaded strict key v =
      let a = h.4 in
      Ensures-if (same key (codes "escape injection")) (λ _. kept_bool v _ λ x. h)
        λ _.
          Ensures-if (same key (codes "max log length"))
            (λ _. ensured _ (
              new_advanced (clamped v 256 65536) c.truncation_marker c.crash_safety c.stats_file
                (record {
                  max_log_ok = clamp_long_bounds (strtol v) 256 65536 (omega arith);
                  marker_ok = a.marker_ok;
                  crash_ok = a.crash_ok;
                  stats_ok = a.stats_ok;
                })))
            λ _.
              Ensures-if (same key (codes "truncation marker"))
                (λ _. Ensures-guard (ltb (length v) max_fmt_len) err_config λ e. ensured _ (
                  new_advanced c.max_log_length v c.crash_safety c.stats_file (record {
                    max_log_ok = a.max_log_ok;
                    marker_ok = ltb→lt _ _ e;
                    crash_ok = a.crash_ok;
                    stats_ok = a.stats_ok;
                  })))
                λ _.
                  Ensures-if (same key (codes "fork behavior")) (λ _. kept_keyword _ v _ λ x l. h)
                    λ _.
                      Ensures-if (same key (codes "signal safe")) (λ _. kept_bool v _ λ x. h)
                        λ _.
                          Ensures-if (same key (codes "crash safety"))
                            (λ _. kept_keyword _ v _ λ x l.
                              new_advanced c.max_log_length c.truncation_marker x c.stats_file
                                (record {
                                  max_log_ok = a.max_log_ok;
                                  marker_ok = a.marker_ok;
                                  crash_ok = omega arith;
                                  stats_ok = a.stats_ok;
                                }))
                            λ _.
                              Ensures-if (same key (codes "stats interval")) (λ _. ensured _ h)
                                λ _.
                                  Ensures-if (same key (codes "stats output"))
                                    (λ _. kept_keyword _ v _ λ x l. h)
                                    λ _.
                                      Ensures-if (same key (codes "stats file"))
                                        (λ _.
                                          Ensures-guard (ltb (length v) max_path_len) err_config
                                            λ e. ensured _ (
                                              new_advanced c.max_log_length c.truncation_marker
                                                c.crash_safety v
                                                (record {
                                                  max_log_ok = a.max_log_ok;
                                                  marker_ok = a.marker_ok;
                                                  crash_ok = a.crash_ok;
                                                  stats_ok = ltb→lt _ _ e;
                                                })))
                                        λ _. unknown-IsLoaded strict
