-- ===== src/Ring/Outcomes.antt =====
-- src/ring/ringbuf_locked.c, `hpu_ring_put`: the rounds of the loop, and what an outcome leaves.
use hpulogc.Prelude.{
  ℕ, suc, ◌+◌, ◌-◌, ◌≤◌, ◌<◌, ◌≡◌, ◌≢◌, refl, sym, ap, ◌∙◌, true, false, inl, inr, ◌⊎◌, List, [],
  ◌∷◌, ◌++◌, arith, length,
}
use mathlib.Core.List.{append-nil, append_assoc}
use hpulogc.Prelude.{length-append}
use hpulogc.Ring.State.{Ring, Msg, Status, ok, empty, dropped, Policy, discard, overwrite, wait}
use hpulogc.Ring.Records.{evict, free_bytes, contig_bytes, record_len, write_record, write_pad}
use hpulogc.Ring.Calls.{
  returned, again, blocked, apply_policy, total_len, put_round, PutResult, finished, waiting, put,
}
use hpulogc.Ring.Layout.{Item, pad, IsValid, entries, entries-append}
use hpulogc.Ring.Evict.{kept, gone, gone-kept, evict-Keeps, evict-IsValid}
use hpulogc.Ring.Writes.{write_pad-IsValid}

-- Between two states of the ring the oldest records were dropped, and counted; none is, but
-- under the overwrite policy.
pub record Drops (r : Ring) (items : List Item) (r' : Ring) (items' : List Item) : Type 0 where
  pub lost : List Msg
  pub valid : IsValid r' items'
  pub splits : entries items ≡ lost ++ entries items'
  pub counted : r'.overwritten ≡ r.overwritten + length lost
  pub same_dropped : r'.dropped ≡ r.dropped
  pub same_policy : r'.policy ≡ r.policy
  pub same_closed : r'.closed ≡ r.closed
  pub same_capacity : r'.capacity ≡ r.capacity
  pub only_overwrite : (r.policy ≡ overwrite) ⊎ (lost ≡ [])

-- What a call leaves, by its outcome. An accepted record stands behind those that are left; a
-- refused one leaves the records as they were, and is counted; a call that waits has changed none.
abbrev pub PutLeaves : Ring → List Item → Msg → PutResult → Type 0
PutLeaves r items m (finished ok r') =
    (lost left : List Msg) × (items' : List Item) × IsValid r' items'
    × (entries items ≡ lost ++ left)
    × (entries items' ≡ left ++ m ∷ [])
    × (r'.overwritten ≡ r.overwritten + length lost)
    × (r'.dropped ≡ r.dropped)
    × ((r.policy ≡ overwrite) ⊎ (lost ≡ []))
PutLeaves r items m (finished dropped r') =
    (items' : List Item) × IsValid r' items'
    × (entries items' ≡ entries items)
    × (r'.overwritten ≡ r.overwritten)
    × (r'.dropped ≡ r.dropped + 1)
    × ((r.closed ≡ true) ⊎ (r.policy ≡ discard))
PutLeaves r items m (finished empty r') = ⊥
PutLeaves r items m (waiting r') =
    (items' : List Item) × IsValid r' items'
    × (entries items' ≡ entries items)
    × (r'.overwritten ≡ r.overwritten)
    × (r'.dropped ≡ r.dropped)
    × (r.policy ≡ wait)
PutLeaves r items m PutResult.unfinished = ⊥

module _ (r : Ring) (m : Msg) (fuel : ℕ) where
  pub put-returned :
      (s : Status) (r' : Ring) → put_round r m ≡ returned s r' → put (suc fuel) r m ≡ finished s r'
  unfolding put
  put-returned s r' e = ground arith

  pub put-again : (r' : Ring) → put_round r m ≡ again r' → put (suc fuel) r m ≡ put fuel r' m
  unfolding put
  put-again r' e = ground arith

  pub put-blocked : put_round r m ≡ blocked → put (suc fuel) r m ≡ waiting r
  unfolding put
  put-blocked e = ground arith

-- The rounds of the loop, by the state that they start in.
module _ (r : Ring) (m : Msg) where
  pub round_closed :
      r.closed ≡ true → put_round r m ≡ returned dropped (record r { dropped = r.dropped + 1 })
  unfolding put_round
  round_closed c = ground arith

  pub round_fits :
      r.closed ≡ false
      → record_len m ≤ contig_bytes r
      → record_len m ≤ free_bytes r
      → put_round r m ≡ returned ok (write_record r m (total_len r (record_len m)))
  unfolding put_round
  round_fits c a b = ground arith

  pub round_pads :
      r.closed ≡ false
      → contig_bytes r < record_len m
      → contig_bytes r ≤ free_bytes r
      → put_round r m ≡ again (write_pad r)
  unfolding put_round
  round_pads c a b = ground arith

  pub round_full :
      r.closed ≡ false
      → ((contig_bytes r < record_len m) × (free_bytes r < contig_bytes r))
        ⊎ ((record_len m ≤ contig_bytes r) × (free_bytes r < record_len m))
      → put_round r m ≡ apply_policy r.policy r (record_len m)
  unfolding put_round
  round_full c a = ground arith

pub Policy-cases : (p : Policy) → (p ≡ discard) ⊎ (p ≡ overwrite) ⊎ (p ≡ wait)
Policy-cases discard = inl refl
Policy-cases overwrite = inr (inl refl)
Policy-cases wait = inr (inr refl)

-- Padding drops nothing.
pub write_pad-Drops :
    (r : Ring) (items : List Item)
    → IsValid r items
    → contig_bytes r ≤ free_bytes r
    → Drops r items (write_pad r) (items ++ (pad (contig_bytes r) ∷ []))
unfolding write_pad
write_pad-Drops r items v room = record {
  lost = [];
  valid = (write_pad-IsValid r items v room).0;
  splits = sym (entries-append items (pad (contig_bytes r) ∷ []) ∙ append-nil (entries items));
  counted = omega arith;
  same_dropped = refl;
  same_policy = refl;
  same_closed = refl;
  same_capacity = refl;
  only_overwrite = inr refl;
}

pub evict-Drops :
    (r : Ring) (items : List Item) (need : ℕ)
    → IsValid r items
    → need ≤ r.capacity
    → r.policy ≡ overwrite
    → Drops r items (evict (r.tail - r.head) r need) (kept need (free_bytes r) items)
evict-Drops r items need v n p =
    let k = evict-Keeps (r.tail - r.head) r need in
    let e = evict-IsValid (r.tail - r.head) r items need v n (omega arith) in
    let g = gone-kept need (free_bytes r) items in
    record {
      lost = gone need (free_bytes r) items;
      valid = e.0;
      splits = g.0;
      counted = omega (arith, e.2, g.1);
      same_dropped = k.same_dropped;
      same_policy = k.same_policy;
      same_closed = k.same_closed;
      same_capacity = k.same_capacity;
      only_overwrite = inl p;
    }

-- Where the policy does not drop records, none was dropped.
pub none_lost :
    (r : Ring) (items : List Item) (r' : Ring) (items' : List Item)
    → Drops r items r' items'
    → (r.policy ≢ overwrite)
    → (entries items' ≡ entries items) × (r'.overwritten ≡ r.overwritten)
none_lost r items r' items' d ne = elim d.only_overwrite [
  | inl p ↦ absurd (ne p)
  | inr none ↦ (
    sym (d.splits ∙ ap (λ l. l ++ entries items') none),
    omega (arith, d.counted, ap length none),
  )
]

-- What a later state's call leaves is what the call leaves.
pub PutLeaves-Drops :
    (r : Ring) (items : List Item) (r' : Ring) (items' : List Item) (m : Msg) (out : PutResult)
    → Drops r items r' items'
    → r.closed ≡ false
    → PutLeaves r' items' m out
    → PutLeaves r items m out
PutLeaves-Drops r items r' items' m (finished ok s) d c (lost, left, its, v, e, f, o, n, p) = (
  d.lost ++ lost,
  left,
  its,
  v,
  d.splits ∙ ap (λ l. d.lost ++ l) e ∙ sym (append_assoc d.lost lost left),
  f,
  omega (arith, d.counted, length-append d.lost lost),
  n ∙ d.same_dropped,
  ground (arith, d.only_overwrite, p, d.same_policy),
)
PutLeaves-Drops r items r' items' m (finished dropped s) d c (its, v, e, o, n, why) =
    let ne : r.policy ≢ overwrite = λ p. ground (arith, why, d.same_closed, d.same_policy) in
    let nl = none_lost r items r' items' d ne in
    (
      its,
      v,
      e ∙ nl.0,
      o ∙ nl.1,
      omega (arith, n, d.same_dropped),
      ground (arith, why, d.same_closed, d.same_policy),
    )
PutLeaves-Drops r items r' items' m (finished empty s) d c h = h
PutLeaves-Drops r items r' items' m (waiting s) d c (its, v, e, o, n, why) =
    let ne : r.policy ≢ overwrite = λ p. ground (arith, why, d.same_policy) in
    let nl = none_lost r items r' items' d ne in
    (its, v, e ∙ nl.0, o ∙ nl.1, n ∙ d.same_dropped, sym d.same_policy ∙ why)
PutLeaves-Drops r items r' items' m PutResult.unfinished d c h = h
