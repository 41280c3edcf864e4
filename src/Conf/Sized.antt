-- ===== src/Conf/Sized.antt =====
-- The configuration that src/conf/conf_model.c accepts with the ring of src/ring/ringbuf_locked.c that
-- is made for it.
use hpulogc.Prelude.{
  Bytes, ℕ, ◌+◌, ◌≤◌, ◌<◌, ◌≡◌, ◌≢◌, sym, ◌∙◌, List, [], ◌∷◌, Option, some, arith, length,
}
use hpulogc.Memory.{Mem}
use hpulogc.Ring.State.{Policy, overwrite, Msg, Ring}
use hpulogc.Ring.Records.{create, record_len}
use hpulogc.Ring.Views.{IsFit}
use hpulogc.Ring.Layout.{create-IsValid}
use hpulogc.Ring.Traffic.{Op, send, receive, run, AllFit, IsFifo, run-IsFifo}
use hpulogc.Conf.Result.{ok}
use hpulogc.Conf.Model.{Config, Conf, conf_defaults, max_record_size}
use hpulogc.Conf.FromCode.{conf_from_code}
use hpulogc.Conf.Accepted.{IsAccepted}
use hpulogc.Conf.CodeBounds.{conf_from_code-IsAccepted}

-- A record whose message and fields are within the configured length, and whose category, file and
-- function have the room that is left.
pub record IsWithin (c : Conf) (m : Msg) : Type 0 where
  pub fit : IsFit m
  pub msg : length m.msg ≤ c.max_log_length
  pub fields : length m.fields_wire ≤ c.max_log_length
  pub texts : length m.category + length m.file + length m.func ≤ 2113

abbrev pub AllWithin : Conf → List Op → Type 0
AllWithin c [] = Unit
AllWithin c (send m ∷ ops) = IsWithin c m × AllWithin c ops
AllWithin c (receive n ∷ ops) = AllWithin c ops

within_fits : (c : Conf) (m : Msg) → IsAccepted c → IsWithin c m → record_len m ≤ c.buffer_size
unfolding record_len max_record_size
within_fits c m a w = omega (arith, a.room, w.msg, w.fields, w.texts)

AllWithin-AllFit :
    (c : Conf) (cap : ℕ) (ops : List Op)
    → IsAccepted c
    → c.buffer_size ≤ cap
    → AllWithin c ops
    → AllFit cap ops
AllWithin-AllFit c cap [] a h w = tt
AllWithin-AllFit c cap (send m ∷ ops) a h w =
    ((w.0.fit, omega (arith, within_fits c m a w.0)), AllWithin-AllFit c cap ops a h w.1)
AllWithin-AllFit c cap (receive n ∷ ops) a h w = AllWithin-AllFit c cap ops a h w

create_same :
    (n : ℕ) (policy : Policy) (mode : ℕ) (garbage : Mem) {r : Ring}
    → create n policy mode garbage ≡ some r
    → (r.policy ≡ policy) × (r.capacity ≤ n + 7)
unfolding create
create_same n policy mode garbage h = ground arith

-- On the ring that is made for an accepted configuration, not under the overwrite policy, any
-- sequence of puts and gets of records within the configured lengths hands out in order what it
-- accepts.
pub accepted_conf-IsFifo :
    (stale : ℕ → Bytes → Bytes) (cfg : Option Config) (c : Conf) (policy : Policy) (mode : ℕ)
    (garbage : Mem) (r : Ring) (fuel : ℕ) (ops : List Op)
    → conf_from_code stale conf_defaults cfg ≡ ok c
    → create c.buffer_size policy mode garbage ≡ some r
    → policy ≢ overwrite
    → AllWithin c ops
    → c.buffer_size + 7 < fuel
    → IsFifo [] (run fuel ops r)
accepted_conf-IsFifo stale cfg c policy mode garbage r fuel ops e made p w f =
    let a : IsAccepted c = conf_from_code-IsAccepted stale cfg c e in
    let same = create_same c.buffer_size policy mode garbage made in
    let valid = create-IsValid c.buffer_size policy mode garbage (omega (arith, a.buffer)) made in
    run-IsFifo fuel ops r [] valid.0 (AllWithin-AllFit c r.capacity ops a valid.1 w)
      (λ q. p (sym same.0 ∙ q)) (omega (arith, same.1))
