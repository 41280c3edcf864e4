-- ===== src/Ring/TooLong.antt =====
-- src/ring/ringbuf_locked.c, `hpu_ring_put` of a record that is longer than the ring.
use hpulogc.Prelude.{
  ℕ, zero, suc, ◌<◌, ◌≡◌, ◌≢◌, ap, ◌∙◌, ◌⊎◌, inl, inr, true, arith, Bool-cases, leb,
}
use hpulogc.Ring.State.{Ring, Msg, discard, overwrite, Status, dropped}
use hpulogc.Ring.Records.{record_len, contig_bytes, free_bytes, write_pad}
use hpulogc.Ring.Calls.{apply_policy, finished, put}
use hpulogc.Ring.Outcomes.{
  round_closed, round_full, round_pads, put-returned, put-again, put-blocked, Policy-cases,
}

-- What a put that returns has done: dropped the record, as the ring is closed or its policy says.
abbrev pub Dropped : Ring → Status → Type 0
Dropped r s = (s ≡ dropped) × ((r.closed ≡ true) ⊎ (r.policy ≡ discard))

-- A record longer than the ring is never accepted, in however many rounds, by a ring that is not
-- under the overwrite policy: a put that returns has dropped it, and the ring was closed or its
-- policy is discard.
pub put_too_long :
    (fuel : ℕ) (r : Ring) (m : Msg) (s : Status) (r' : Ring)
    → r.policy ≢ overwrite
    → r.capacity < record_len m
    → put fuel r m ≡ finished s r'
    → Dropped r s
unfolding put write_pad apply_policy
put_too_long zero r m s r' p n h = cc
put_too_long (suc fuel) r m s r' p n h = elim (Bool-cases r.closed) [
  | inl c ↦ let h' = rw (put-returned r m fuel dropped _ (round_closed r m c)) at h in (cc, inl c)
  | inr c ↦ elim (Bool-cases (leb (contig_bytes r) (free_bytes r))) [
    | inl f ↦
        let e =
          put-again r m fuel (write_pad r) (round_pads r m c (omega arith) (ground (arith, f))) in
        put_too_long fuel (write_pad r) m s r' p n (rw e at h)
    | inr f ↦
        let full = round_full r m c (inl (omega arith, ground (arith, f))) in
        elim (Policy-cases r.policy) [
          | inl d ↦
              let e =
                put-returned r m fuel dropped _
                  (full ∙ ap (λ k. apply_policy k r (record_len m)) d) in
              let h' = rw e at h in (cc, inr d)
          | inr (inl o) ↦ absurd (p o)
          | inr (inr w) ↦
              let e = put-blocked r m fuel (full ∙ ap (λ k. apply_policy k r (record_len m)) w) in
              let h' = rw e at h in cc
        ]
  ]
]
