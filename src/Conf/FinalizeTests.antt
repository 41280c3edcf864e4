-- ===== src/Conf/FinalizeTests.antt =====
-- src/conf/conf_model.c and src/platform/posix/posix_path.c at concrete inputs.
use hpulogc.Prelude.{
  ℕ, ◌≡◌, ◌++◌, refl, true, false, List, [], ◌∷◌, Option, none, some, Bytes, codes, pos, inl,
}
use hpulogc.Conf.Model.{ConfOutput, Conf, conf_defaults}
use hpulogc.Conf.Paths.{
  segments, components, write_components, normal_form, path_normalize, path_normalize_two_up,
}
use hpulogc.Conf.Lines.{new_output, find_output, has_format}
use hpulogc.Conf.Finalize.{
  Features, no_duplicate, check_dup_paths, check_naming, check_overflow_policy,
  check_consumer_threads, resolve_default_outputs, resolve_rules, validated,
}
use hpulogc.Conf.Open.{
  Call, open_call, close_call, Opening, opens, refuses, err_io, close_outputs, open_outputs,
  open_or_close, Env, derived_env, Final, finalize,
}
use hpulogc.Conf.Reload.{reuse_from, reuse_plan, open_new, finalize_reload, move_handles}
use hpulogc.Conf.Planned.{Distinct}
use hpulogc.Conf.Moved.{Equipped, reload-Equipped}
use hpulogc.Conf.Balanced.{failed-balanced}
use hpulogc.Conf.Handles.{opened, closed, held}

path_normalize_two_up_example :
    path_normalize (codes "../../" ++ codes "a.log") 512 ≡ path_normalize (codes "a.log") 512
path_normalize_two_up_example = path_normalize_two_up (codes "a.log") 512 refl

abbrev file_at : Bytes → Option ℕ → ConfOutput
file_at path handle =
    let o = new_output path in
    record o {
      desc = record o.desc { type = pos 1; path = some path };
      path_buf = path;
      handle = handle;
    }

abbrev posix : Features
posix = record { async_build = true; lockfree = false; mspc = true; mpmc = false }

abbrev before_reload : Conf
before_reload = record conf_defaults { outputs = file_at (codes "a.log") (some 7) ∷ [] }

abbrev two_files : Conf
two_files = record conf_defaults {
  outputs = file_at (codes "b.log") none ∷ file_at (codes "a.log") none ∷ [];
}

abbrev opens_nine : List Call → ConfOutput → ℕ → Opening
opens_nine calls o severity = opens 9

abbrev old_env : Env
old_env = derived_env before_reload 5 100

abbrev reloaded : Final
reloaded = record {
  conf = record two_files {
    outputs = file_at (codes "b.log") (some 9) ∷ file_at (codes "a.log") none ∷ [];
  };
  env = derived_env two_files 5 100;
  calls = open_call 9 ∷ [];
  rc = pos 0;
}

two_files-reloaded :
    finalize_reload opens_nine posix two_files old_env [] before_reload old_env
    ≡ (reloaded, none ∷ some 0 ∷ [])
unfolding finalize_reload validated check_dup_paths no_duplicate check_naming check_overflow_policy
    check_consumer_threads resolve_default_outputs resolve_rules find_output has_format
    path_normalize normal_form segments components write_components reuse_plan reuse_from open_new
    conf_defaults
two_files-reloaded = refl

reload-Equipped_example :
    Distinct (none ∷ some 0 ∷ [])
    × Equipped before_reload.outputs
        (move_handles reloaded.conf.outputs (none ∷ some 0 ∷ []) before_reload.outputs).0
        (none ∷ some 0 ∷ [])
reload-Equipped_example =
    reload-Equipped opens_nine posix two_files before_reload old_env old_env [] reloaded
      (none ∷ some 0 ∷ []) two_files-reloaded refl

-- The first file opens, and the second does not.
abbrev opens_once : List Call → ConfOutput → ℕ → Opening
opens_once [] o severity = opens 3
opens_once (c ∷ cs) o severity = refuses (pos 0)

abbrev failed_start : Final
failed_start = record {
  conf = two_files;
  env = derived_env two_files 0 100;
  calls = open_call 3 ∷ close_call 3 ∷ [];
  rc = err_io;
}

two_files-fail : finalize opens_once posix false 0 100 two_files old_env [] ≡ failed_start
unfolding finalize validated check_dup_paths no_duplicate check_naming check_overflow_policy
    check_consumer_threads resolve_default_outputs resolve_rules find_output has_format
    path_normalize normal_form segments components write_components open_outputs open_or_close
    close_outputs conf_defaults
two_files-fail = refl

failed-balanced_example :
    (opened 3 failed_start.calls ≡ closed 3 failed_start.calls)
    × (held 3 failed_start.conf.outputs ≡ 0)
failed-balanced_example =
    failed-balanced opens_once posix false 0 100 two_files before_reload old_env old_env
      failed_start 3 refl (inl two_files-fail) (λ e. cc)
