-- ===== src/Conf/TriggerTests.antt =====
-- src/core/hotreload.c at a concrete input.
use hpulogc.Prelude.{
  ℕ, ◌≡◌, ◌++◌, ◌⊎◌, refl, true, false, List, [], ◌∷◌, Option, some, Bytes, codes, pos,
}
use hpulogc.Fields.Keys.{skip_blanks, trim_end}
use hpulogc.Conf.Model.{ConfOutput, Conf, conf_defaults}
use hpulogc.Conf.Lexer.{
  cut_comment, trim_tail, strip_comment_and_trim, backslashes, line_body, but_last, c_string, fgets,
  deliver, join_line, process_line, file_round, file_lines, parse_file,
}
use hpulogc.Conf.Values.{eqcase, index_of, strip_quotes, trim, csv_part, csv_parts}
use hpulogc.Conf.Lines.{
  new_output, default_naming, find_output, has_format, split_at, flat_key, output_key, output_keys,
  finish_output, output_type, output_parts, parse_outputs,
}
use hpulogc.Conf.File.{
  Uses, header_name, enter, key_value, parse_key_value, set_key, conf_line_cb, rederive_all,
  effective_strict, load_file,
}
use hpulogc.Conf.Paths.{segments, components, write_components, normal_form, path_normalize}
use hpulogc.Conf.Finalize.{
  Features, no_duplicate, check_dup_paths, check_naming, check_overflow_policy,
  check_consumer_threads, resolve_default_outputs, resolve_rules, validated,
}
use hpulogc.Conf.Open.{opens, close_outputs, derived_env}
use hpulogc.Conf.Reload.{reuse_from, reuse_plan, open_new, finalize_reload, move_handles}
use hpulogc.Conf.Trigger.{
  Runtime, SlotLook, try_enter, Reloaded, swapped, reload_under, trigger_reload,
}
use hpulogc.Conf.Swapped.{Rejects, Swaps, trigger_reload-Swaps}

abbrev full : Uses
full = record {
  build = record { source_loc = true; hot_reload = true; has_async = true; has_throttle = true };
  compiles = λ name template. true;
  registered = λ type. false;
  divisor = λ v. 1;
}

abbrev posix : Features
posix = record { async_build = true; lockfree = false; mspc = true; mpmc = false }

-- The output that the file defines, which the old snapshot has open.
abbrev main_file : Option ℕ → ConfOutput
main_file handle =
    let o = new_output (codes "main") in
    record o {
      desc = record o.desc {
        type = pos 1;
        path = some (codes "a.log");
        rotate_naming = some default_naming;
      };
      path_buf = codes "a.log";
      naming_buf = default_naming;
      handle = handle;
    }

abbrev content : Bytes
content = codes "[outputs]" ++ 10 ∷ codes "main = file, path = a.log" ++ 10 ∷ []

abbrev old_conf : Conf
old_conf = record conf_defaults { level = 4; outputs = main_file (some 7) ∷ [] }

abbrev new_conf : Conf
new_conf = record conf_defaults { outputs = main_file (some 7) ∷ []; source_path = codes "a.conf" }

abbrev instance_before : Runtime
instance_before = record {
  running = true;
  source_path = codes "a.conf";
  reload_busy = false;
  conf = some old_conf;
  env = derived_env old_conf 5 100;
  conf_gen = 1;
  level_atomic = 4;
  ts_source = 0;
  escape_injection = pos 1;
  max_log_len_atomic = 4096;
  retired_lost = 0;
  hup_installed = false;
}

abbrev instance_after : Runtime
instance_after = record instance_before {
  conf = some new_conf;
  env = derived_env new_conf 5 100;
  conf_gen = 2;
  level_atomic = 2;
}

abbrev outcome : Reloaded
outcome = record { runtime = instance_after; calls = []; rc = pos 0 }

abbrev at_once : List SlotLook
at_once = record { free = true; still_running = true; now_ms = 0 } ∷ []

main_file-kept :
    trigger_reload full posix
      (λ path. true)
      (λ path. some content)
      (λ calls o severity. opens 9)
      (λ h. 0)
      true
      instance_before
      0
      at_once
      true
    ≡ some outcome
unfolding trigger_reload try_enter reload_under swapped load_file effective_strict parse_file
    file_lines file_round fgets c_string process_line join_line line_body backslashes but_last
    deliver strip_comment_and_trim cut_comment trim_tail conf_line_cb enter header_name split_at
    index_of eqcase set_key key_value trim skip_blanks trim_end strip_quotes csv_part csv_parts
    parse_key_value parse_outputs output_parts output_type output_keys output_key flat_key
    finish_output find_output rederive_all conf_defaults finalize_reload validated check_dup_paths
    no_duplicate check_naming check_overflow_policy check_consumer_threads resolve_default_outputs
    resolve_rules has_format path_normalize normal_form segments components write_components
    reuse_plan reuse_from open_new move_handles close_outputs
main_file-kept = refl

trigger_reload-Swaps_example :
    Rejects instance_before outcome
    ⊎ Swaps full (λ path. true) (λ path. some content) instance_before outcome
trigger_reload-Swaps_example =
    trigger_reload-Swaps full posix (λ path. true) (λ path. some content)
      (λ calls o severity. opens 9) (λ h. 0) true instance_before 0 at_once true outcome refl
      main_file-kept
