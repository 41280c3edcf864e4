-- ===== src/Conf/Reload.antt =====
-- src/conf/conf_model.c (`hpu_conf_finalize_reload`) and the move of handles of src/core/hotreload.c.
use hpulogc.Prelude.{
  ℕ, ◌+◌, ◌==◌, Bool, true, false, ◌&&◌, if◌then◌else◌, List, [], ◌∷◌, ◌++◌, map, Option, none,
  some, Bytes, get_elem?, set, same, ℤ, pos, negsuc,
}
use hpulogc.Conf.Result.{ok, err, err_config}
use hpulogc.Conf.Model.{Output, ConfOutput, Conf}
use hpulogc.Conf.Finalize.{Features, is_file, validated}
use hpulogc.Conf.Open.{
  err_io, severity, Call, close_call, open_call, Opening, opens, refuses, is_config, Run, before,
  Env, derived_env, Final,
}

abbrev pub same_int : ℤ → ℤ → Bool
same_int (pos a) (pos b) = a == b
same_int (negsuc a) (negsuc b) = a == b
same_int _ _ = false

-- Two templates at addresses of their own.
abbrev pub same_naming : Option Bytes → Option Bytes → Bool
same_naming none none = true
same_naming (some a) (some b) = same a b
same_naming _ _ = false

abbrev pub kv_equal : List (Bytes × Bytes) → List (Bytes × Bytes) → Bool
kv_equal [] [] = true
kv_equal ((k, v) ∷ a) ((l, w) ∷ b) = same k l && same v w && kv_equal a b
kv_equal _ _ = false

abbrev pub is_open : Option ℕ → Bool
is_open none = false
is_open (some h) = true

abbrev same_desc : Output → Output → Bool
same_desc a b =
    same_int a.rotate b.rotate
    && (a.max_size == b.max_size)
    && same_int a.time_unit b.time_unit
    && same_int a.max_files b.max_files
    && same_int a.fsync b.fsync
    && same_int a.symlink_latest b.symlink_latest
    && (a.file_mode == b.file_mode)
    && (a.dir_mode == b.dir_mode)
    && same_naming a.rotate_naming b.rotate_naming

-- An open file output of the old snapshot with the path and the parameters of the new one.
abbrev pub reusable : ConfOutput → ConfOutput → Bool
reusable old new =
    is_open old.handle
    && is_file old
    && same old.path_buf new.path_buf
    && same_desc old.desc new.desc
    && kv_equal old.kvs new.kvs

unfoldable pub reuse_from : ℕ → List ConfOutput → ConfOutput → Option ℕ
reuse_from j [] new = none
reuse_from j (old ∷ olds) new = if reusable old new then some j else reuse_from (j + 1) olds new

-- `reuse_old_idx`
unfoldable pub reuse_plan : List ConfOutput → List ConfOutput → List (Option ℕ)
reuse_plan olds [] = []
reuse_plan olds (new ∷ news) =
    (if is_file new then reuse_from 0 olds new else none) ∷ reuse_plan olds news

-- An output keeps its new handle if the rest is opened as well.
abbrev with_handle : ConfOutput → ℕ → Run → Run
with_handle o h r = before (record o { handle = if same_int r.rc (pos 0) then some h else none }) r

module _ (opener : List Call → ConfOutput → ℕ → Opening) where
  -- What is not reused is opened; `opened` has the handles that were, the last one first. An error
  -- closes them in this order.
  unfoldable pub open_new : Conf → List ConfOutput → List (Option ℕ) → List ℕ → List Call → Run
  open_new c (o ∷ os) (some j ∷ plan) opened calls = before o (open_new c os plan opened calls)
  open_new c (o ∷ os) (none ∷ plan) opened calls = elim (opener calls o (severity c o)) [
    | opens h ↦ with_handle o h (open_new c os plan (h ∷ opened) (calls ++ open_call h ∷ []))
    | refuses e ↦ record {
      outputs = record o { handle = none } ∷ os;
      calls = calls ++ map close_call opened;
      rc = if is_config e then err_config else err_io;
    }
  ]
  open_new c os plan opened calls = record { outputs = os; calls = calls; rc = pos 0 }

  -- `hpu_conf_finalize_reload` of a new snapshot, with the plan.
  unfoldable pub finalize_reload :
      Features → Conf → Env → List Call → Conf → Env → Final × List (Option ℕ)
  finalize_reload f new env calls old old_env = elim (validated f new) [
    | err e ↦ (record { conf = new; env = env; calls = calls; rc = e }, [])
    | ok v ↦
        let plan = reuse_plan old.outputs v.outputs in
        let r = open_new v v.outputs plan [] calls in
        (
          record {
            conf = record v { outputs = r.outputs };
            env = derived_env v old_env.mono_base_us old_env.pid;
            calls = r.calls;
            rc = r.rc;
          },
          plan,
        )
  ]

abbrev pub released : List ConfOutput → ℕ → List ConfOutput
released olds j = elim (get_elem? olds j) [
  | none ↦ olds
  | some old ↦ set olds j (record old { handle = none })
]

abbrev pub taken : List ConfOutput → ℕ → ConfOutput → ConfOutput
taken olds j new = elim (get_elem? olds j) [
  | none ↦ new
  | some old ↦ record new { handle = old.handle }
]

-- The handles that move from the old snapshot to the new one.
unfoldable pub move_handles :
    List ConfOutput → List (Option ℕ) → List ConfOutput → List ConfOutput × List ConfOutput
move_handles (new ∷ news) (some j ∷ plan) olds =
    let (news', olds') = move_handles news plan (released olds j) in
    (taken olds j new ∷ news', olds')
move_handles (new ∷ news) (none ∷ plan) olds =
    let (news', olds') = move_handles news plan olds in (new ∷ news', olds')
move_handles news plan olds = (news, olds)
