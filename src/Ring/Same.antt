-- ===== src/Ring/Same.antt =====
-- src/ring/ringbuf_locked.c, `hpu_ring_put`: the ring's size and policy.
use hpulogc.Prelude.{ℕ, zero, suc, ◌-◌, ◌≡◌, refl, ◌∙◌, arith}
use hpulogc.Ring.State.{Ring, Msg, Policy, discard, overwrite, wait}
use hpulogc.Ring.Records.{record_len, write_record, write_pad}
use hpulogc.Ring.Calls.{
  Round, returned, again, blocked, apply_policy, put_round, PutResult, finished, waiting, put,
}
use hpulogc.Ring.Evict.{evict-Keeps}

-- The ring's size and its policy, in the state that an outcome leaves.
abbrev pub SameRing : Ring → PutResult → Type 0
SameRing r (finished s r') = (r'.capacity ≡ r.capacity) × (r'.policy ≡ r.policy)
SameRing r (waiting r') = (r'.capacity ≡ r.capacity) × (r'.policy ≡ r.policy)
SameRing r PutResult.unfinished = Unit

SameRound : Ring → Round → Type 0
SameRound r (returned s r') = (r'.capacity ≡ r.capacity) × (r'.policy ≡ r.policy)
SameRound r (again r') = (r'.capacity ≡ r.capacity) × (r'.policy ≡ r.policy)
SameRound r blocked = Unit

apply_policy-SameRound : (p : Policy) (r : Ring) (need : ℕ) → SameRound r (apply_policy p r need)
unfolding apply_policy SameRound
apply_policy-SameRound discard r need = (refl, refl)
apply_policy-SameRound overwrite r need =
    let k = evict-Keeps (r.tail - r.head) r need in (k.same_capacity, k.same_policy)
apply_policy-SameRound wait r need = tt

put_round-SameRound : (r : Ring) (m : Msg) → SameRound r (put_round r m)
unfolding put_round SameRound write_pad write_record
put_round-SameRound r m = ground (arith, apply_policy-SameRound r.policy r (record_len m))

SameRing-trans :
    (r r' : Ring)
    → (r'.capacity ≡ r.capacity) × (r'.policy ≡ r.policy)
    → (out : PutResult) → SameRing r' out
    → SameRing r out
SameRing-trans r r' e (finished s q) h = (h.0 ∙ e.0, h.1 ∙ e.1)
SameRing-trans r r' e (waiting q) h = (h.0 ∙ e.0, h.1 ∙ e.1)
SameRing-trans r r' e PutResult.unfinished h = tt

pub put-SameRing : (fuel : ℕ) (r : Ring) (m : Msg) → SameRing r (put fuel r m)
unfolding put SameRound
put-SameRing zero r m = tt
put-SameRing (suc fuel) r m =
    (elim (put_round r m)
        as (λ x.
          SameRound r x
          → SameRing r (elim x [
            | returned s r' ↦ finished s r'
            | again r' ↦ put fuel r' m
            | blocked ↦ waiting r
          ])) [
            | returned s r' ↦ λ h. h
            | again r' ↦ λ h. SameRing-trans r r' h (put fuel r' m) (put-SameRing fuel r' m)
            | blocked ↦ λ h. (refl, refl)
          ])
      (put_round-SameRound r m)
