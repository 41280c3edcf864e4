-- ===== src/Conf/Unraised.antt =====
-- The sizes of a configuration file, src/conf/conf_file.c, with the ring of src/ring/ringbuf_locked.c.
use hpulogc.Prelude.{
  ℕ, ◌+◌, ◌≤◌, ◌≡◌, ◌≢◌, sym, ap, ◌∙◌, Bool, some, arith, length, Bytes, codes, pos,
}
use hpulogc.Ring.State.{Ring, Msg, overwrite, Status}
use hpulogc.Ring.Calls.{put, finished}
use hpulogc.Ring.Views.{IsFit, record_len_bounds, length-payload}
use hpulogc.Ring.TooLong.{Dropped, put_too_long}
use hpulogc.Conf.Result.{Result, ok, err, ◌>>=◌}
use hpulogc.Conf.Model.{Conf}
use hpulogc.Conf.Values.{parse_size, strtol, clamp_long}
use hpulogc.Conf.Global.{clamp_size, parse_buffer_key, parse_advanced}

-- The two keys, in the order of their sections.
abbrev pub Sized : Bool → Conf → Bytes → Bytes → Conf → Type 0
Sized strict c v w c' =
    (parse_buffer_key strict c (codes "buffer size") v >>= λ c1.
    parse_advanced strict c1 (codes "max log length") w)
    ≡ ok c'

abbrev conf_or : Conf → Result Conf → Conf
conf_or c (ok a) = a
conf_or c (err e) = c

sized_lem :
    (strict : Bool) (c : Conf) (v w : Bytes) (c' : Conf) (n k : ℕ)
    → parse_size v ≡ some n
    → strtol w ≡ pos k
    → Sized strict c v w c'
    → (c'.buffer_size ≡ clamp_size 4096 1073741824 n)
      × (c'.max_log_length ≡ clamp_long (pos k) 256 65536)
unfolding parse_buffer_key parse_advanced
sized_lem strict c v w c' n k p q h =
    let h' = rw p at h in
    (
      sym (ap (λ r. (conf_or c r).buffer_size) h'),
      sym (ap (λ r. (conf_or c r).max_log_length) h') ∙ ap (λ i. clamp_long i 256 65536) q,
    )

-- A configuration file may set a buffer of at most 16 KiB and a message length of at least 32 KiB,
-- and is accepted with both. On a ring of that size, not under the overwrite policy, a record with a
-- message of the configured length is never accepted: a put that returns has dropped it.
pub unraised_buffer :
    (strict : Bool) (c c' : Conf) (v w : Bytes) (n k : ℕ) (r : Ring) (m : Msg) (fuel : ℕ)
    (s : Status) (r' : Ring)
    → parse_size v ≡ some n
    → n ≤ 16384
    → strtol w ≡ pos k
    → 32768 ≤ k
    → Sized strict c v w c'
    → r.capacity ≤ c'.buffer_size + 7
    → r.policy ≢ overwrite
    → IsFit m
    → length m.msg ≡ c'.max_log_length
    → put fuel r m ≡ finished s r'
    → Dropped r s
unfolding clamp_long
unraised_buffer strict c c' v w n k r m fuel s r' p small q large h cap policy fit len e =
    let sizes = sized_lem strict c v w c' n k p q h in
    let buffer : c'.buffer_size ≤ 16384 = ground (arith, sizes.0) in
    let limit : 32768 ≤ c'.max_log_length = ground (arith, sizes.1) in
    put_too_long fuel r m s r' policy (omega (arith, (record_len_bounds m fit).0, length-payload m))
      e
