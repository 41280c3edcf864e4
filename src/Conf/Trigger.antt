-- ===== src/Conf/Trigger.antt =====
-- src/core/hotreload.c: the reload of the configuration of a running instance.
use hpulogc.Prelude.{
  ℕ, zero, suc, ◌+◌, ◌%◌, ◌^◌, ◌==◌, Bool, true, false, not, ◌&&◌, ◌||◌, if◌then◌else◌, List, [],
  ◌∷◌, Option, none, some, Bytes, leb, length, ℤ, pos, negsuc,
}
use hpulogc.Conf.Result.{ok, err}
use hpulogc.Conf.Model.{ConfOutput, Conf, conf_defaults}
use hpulogc.Conf.File.{Uses, load_file}
use hpulogc.Conf.Finalize.{Features}
use hpulogc.Conf.Open.{Call, Opening, close_outputs, Env, Final}
use hpulogc.Conf.Reload.{finalize_reload, move_handles}

-- What the calls of the instance read and the reload writes.
pub record Runtime : Type 0 where
  pub running : Bool
  pub source_path : Bytes
  pub reload_busy : Bool
  pub conf : Option Conf
  pub env : Env
  pub conf_gen : ℕ
  pub level_atomic : ℕ
  pub ts_source : ℕ
  pub escape_injection : ℤ
  pub max_log_len_atomic : ℕ
  pub retired_lost : ℕ
  pub hup_installed : Bool

-- One look at the slot of the reload: whether it is free, the instance runs, and the milliseconds.
pub record SlotLook : Type 0 where
  pub free : Bool
  pub still_running : Bool
  pub now_ms : ℕ

-- `reload_try_enter`; `none` is that the looks end first.
unfoldable pub try_enter : ℕ → List SlotLook → Option Bool
try_enter deadline [] = none
try_enter deadline (l ∷ ls) =
    if l.free
    then some true
    else (if not l.still_running || leb deadline l.now_ms
        then some false
        else try_enter deadline ls)

-- `reload_sync_fast_path`
abbrev pub synced : Runtime → Conf → Runtime
synced rt c = record rt {
  level_atomic = c.level;
  ts_source = c.timestamp_source;
  escape_injection = c.escape_injection;
  max_log_len_atomic = c.max_log_length;
}

-- The lines that the outputs with a handle have lost.
abbrev pub lost_lines : (ℕ → ℕ) → List ConfOutput → ℕ
lost_lines lost [] = 0
lost_lines lost (o ∷ os) = elim o.handle [ none ↦ 0 | some h ↦ lost h ] + lost_lines lost os

pub record Reloaded : Type 0 where
  pub runtime : Runtime
  pub calls : List Call
  pub rc : ℤ

-- A reload that gives up: -1, with the slot free again.
abbrev pub rejected : Runtime → List Call → Reloaded
rejected rt calls = record {
  runtime = record rt { reload_busy = false };
  calls = calls;
  rc = negsuc 0;
}

-- The swap under the lock: `install` is that the handler of SIGHUP could be installed.
unfoldable pub swapped : (ℕ → ℕ) → Bool → Runtime → Conf → Final → List (Option ℕ) → Reloaded
swapped lost install rt old final plan =
    let (news, olds) = move_handles final.conf.outputs plan old.outputs in
    let fresh = record final.conf { outputs = news } in
    record {
      runtime = record (synced rt fresh) {
        reload_busy = false;
        conf = some fresh;
        env = final.env;
        conf_gen = (rt.conf_gen + 1) % 2 ^ 32;
        retired_lost = (rt.retired_lost + lost_lines lost olds) % 2 ^ 64;
        hup_installed = rt.hup_installed || (fresh.signal_reload && install);
      };
      calls = (close_outputs olds final.calls).1;
      rc = pos 0;
    }

-- `if (rc != 0)`
abbrev if_ok : ℤ → Reloaded → Reloaded → Reloaded
if_ok (pos zero) done failed = done
if_ok (pos (suc n)) done failed = failed
if_ok (negsuc n) done failed = failed

module _ (uses : Uses) (features : Features) (regular : Bytes → Bool) (fopen : Bytes → Option Bytes)
    (opener : List Call → ConfOutput → ℕ → Opening) (lost : ℕ → ℕ) (install : Bool) where
  abbrev pub zero_env : Env
  zero_env = record {
    time_format = [];
    use_utc = false;
    timestamp_source = 0;
    newline_style = 0;
    pid_fmt = 0;
    tid_fmt = 0;
    source_loc_enabled = false;
    mono_base_us = 0;
    pid = 0;
  }

  -- A snapshot that does not finalize is freed, with the handles that it may have.
  abbrev pub swap_or_free : Runtime → Conf → Final × List (Option ℕ) → Reloaded
  swap_or_free rt old (final, plan) =
      if_ok final.rc (swapped lost install rt old final plan)
        (rejected rt (close_outputs final.conf.outputs final.calls).1)

  -- From the claimed slot on, under the old snapshot.
  unfoldable pub reload_under : Runtime → Conf → Option Reloaded
  reload_under rt old =
      elim (load_file uses regular fopen conf_defaults rt.source_path (some old.strict_init)) [
        | none ↦ none
        | some loaded ↦ elim loaded [
          | err e ↦ some (rejected rt [])
          | ok fresh ↦
              some
                (swap_or_free rt old (finalize_reload opener features fresh zero_env [] old rt.env))
        ]
      ]

  -- `hpu_core_trigger_reload`; `still_running` is the second look at the state, and allocation
  -- succeeds. `none` is that a loop was not given enough looks or rounds.
  unfoldable pub trigger_reload : Runtime → ℕ → List SlotLook → Bool → Option Reloaded
  trigger_reload rt begun_ms looks still_running =
      if not rt.running || (length rt.source_path == 0)
      then some (record { runtime = rt; calls = []; rc = negsuc 0 })
      else elim (try_enter (begun_ms + 5000) looks) [
        | none ↦ none
        | some entered ↦
            if entered
            then (if still_running
                then elim rt.conf [ none ↦ some (rejected rt []) | some old ↦ reload_under rt old ]
                else some (rejected rt []))
            else some (record { runtime = rt; calls = []; rc = negsuc 0 })
      ]
