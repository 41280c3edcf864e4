-- ===== src/Conf/Open.antt =====
-- src/conf/conf_model.c: the opening and closing of the outputs, and the plan of a reload.
use hpulogc.Prelude.{
  ◌≡◌, ◌⊎◌, inl, inr, refl, ℕ, zero, suc, ◌/◌, ◌==◌, Bool, false, not, ◌&&◌, if◌then◌else◌, List,
  [], ◌∷◌, ◌++◌, none, some, Bytes, ℤ, pos, negsuc,
}
use hpulogc.Conf.Result.{ok, err}
use hpulogc.Conf.Model.{is_num, ConfOutput, Conf}
use hpulogc.Conf.Finalize.{Features, is_file, validated}

-- `HPULOGC_ERR_IO`
abbrev pub err_io : ℤ
err_io = negsuc 2

-- `hpu_fsync_severity`: none 0, shutdown 1, periodic 2, entry 3.
abbrev pub fsync_severity : ℕ → ℕ
fsync_severity zero = 0
fsync_severity (suc zero) = 2
fsync_severity (suc (suc zero)) = 3
fsync_severity (suc (suc (suc zero))) = 1
fsync_severity (suc (suc (suc (suc n)))) = 0

abbrev pub severity : Conf → ConfOutput → ℕ
severity c o = if is_file o && not (is_num o.desc.fsync 0) then 3 else fsync_severity c.crash_safety

-- The sinks that the calls opened and closed, in order.
pub data Call : Type 0 where
  open_call : ℕ → Call
  close_call : ℕ → Call

-- What opening a sink comes to: a handle, or the error, 0 where the sink sets none.
pub data Opening : Type 0 where
  opens : ℕ → Opening
  refuses : ℤ → Opening

pub Opening-cases : (o : Opening) → ((h : ℕ) × (o ≡ opens h)) ⊎ ((e : ℤ) × (o ≡ refuses e))
Opening-cases (opens h) = inl (h, refl)
Opening-cases (refuses e) = inr (e, refl)

-- `err_out != HPULOGC_OK ? err_out : HPULOGC_ERR_IO`
abbrev pub or_io : ℤ → ℤ
or_io (pos zero) = err_io
or_io (pos (suc n)) = pos (suc n)
or_io (negsuc n) = negsuc n

abbrev pub is_config : ℤ → Bool
is_config (pos n) = false
is_config (negsuc n) = n == 3

-- The outputs with their handles, the calls so far, and the code.
pub record Run : Type 0 where
  pub outputs : List ConfOutput
  pub calls : List Call
  pub rc : ℤ

abbrev pub before : ConfOutput → Run → Run
before o r = record r { outputs = o ∷ r.outputs }

-- `hpu_conf_close_outputs`
unfoldable pub close_outputs : List ConfOutput → List Call → List ConfOutput × List Call
close_outputs [] calls = ([], calls)
close_outputs (o ∷ os) calls = elim o.handle [
  | none ↦ let (os', calls') = close_outputs os calls in (o ∷ os', calls')
  | some h ↦
      let (os', calls') = close_outputs os (calls ++ close_call h ∷ []) in
      (record o { handle = none } ∷ os', calls')
]

-- `hpu_fmt_env_t`
pub record Env : Type 0 where
  pub time_format : Bytes
  pub use_utc : Bool
  pub timestamp_source : ℕ
  pub newline_style : ℕ
  pub pid_fmt : ℕ
  pub tid_fmt : ℕ
  pub source_loc_enabled : Bool
  pub mono_base_us : ℕ
  pub pid : ℕ

abbrev pub derived_env : Conf → ℕ → ℕ → Env
derived_env c base pid = record {
  time_format = c.time_format;
  use_utc = c.use_utc;
  timestamp_source = c.timestamp_source;
  newline_style = c.newline_style;
  pid_fmt = c.pid_fmt;
  tid_fmt = c.tid_fmt;
  source_loc_enabled = c.capture_source_loc;
  mono_base_us = base;
  pid = pid;
}

pub record Final : Type 0 where
  pub conf : Conf
  pub env : Env
  pub calls : List Call
  pub rc : ℤ

-- `opener` is `hpu_output_open_from_conf`, on the calls before it, the definition and the severity.
module _ (opener : List Call → ConfOutput → ℕ → Opening) where
  -- `open_outputs`: an output that has a handle keeps it.
  unfoldable pub open_outputs : Conf → List ConfOutput → List Call → Run
  open_outputs c [] calls = record { outputs = []; calls = calls; rc = pos 0 }
  open_outputs c (o ∷ os) calls = elim o.handle [
    | some h ↦ before o (open_outputs c os calls)
    | none ↦ elim (opener calls o (severity c o)) [
      | opens h ↦
          before (record o { handle = some h }) (open_outputs c os (calls ++ open_call h ∷ []))
      | refuses e ↦
          let lenient = before o (open_outputs c os calls) in
          if is_config e && not c.strict_init
          then lenient
          else record { outputs = o ∷ os; calls = calls; rc = or_io e }
    ]
  ]

  -- `open_outputs`, and on an error `hpu_conf_close_outputs`.
  abbrev closed_on_error : Run → ℤ → Run
  closed_on_error r (pos zero) = r
  closed_on_error r rc =
      let (os, calls) = close_outputs r.outputs r.calls in
      record { outputs = os; calls = calls; rc = rc }

  unfoldable pub open_or_close : Conf → List Call → Run
  open_or_close c calls = let r = open_outputs c c.outputs calls in closed_on_error r r.rc

  -- The snapshot's outputs after the opening.
  abbrev with_run : Conf → Env → Run → Final
  with_run c env r = record {
    conf = record c { outputs = r.outputs };
    env = env;
    calls = r.calls;
    rc = r.rc;
  }

  -- `hpu_conf_finalize_impl`, with the clock and the process number. Where a check fails, the indices
  -- that it had resolved are not kept: the snapshot is freed.
  unfoldable pub finalize : Features → Bool → ℕ → ℕ → Conf → Env → List Call → Final
  finalize f dry_run now_ns pid c env calls = elim (validated f c) [
    | err e ↦ record { conf = c; env = env; calls = calls; rc = e }
    | ok v ↦
        let env' = derived_env v (now_ns / 1000) pid in
        if dry_run
        then record { conf = v; env = env'; calls = calls; rc = pos 0 }
        else with_run v env' (open_or_close v calls)
  ]
