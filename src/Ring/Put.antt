-- ===== src/Ring/Put.antt =====
-- src/ring/ringbuf_locked.c, `hpu_ring_put`: the whole call, by the state that it starts in.
use hpulogc.Prelude.{
  ℕ, suc, ◌-◌, ◌%◌, ◌≤◌, ◌<◌, ◌≡◌, refl, ap, ◌∙◌, false, Bool-cases, inl, inr, List, [], ◌∷◌, ◌++◌,
  leb, leb→le, leb→lt, arith,
}
use hpulogc.Ring.State.{Ring, Msg, ok, dropped, overwrite}
use hpulogc.Ring.Records.{evict, free_bytes, contig_bytes, record_len, write_record, write_pad}
use hpulogc.Ring.Calls.{apply_policy, total_len, put_round, put}
use hpulogc.Ring.Views.{IsFit}
use hpulogc.Ring.Layout.{Item, entry, pad, IsValid, entries, entries-append}
use hpulogc.Ring.Evict.{kept, evict-Keeps, evict-IsValid}
use hpulogc.Ring.Writes.{write_pad-IsValid, write_record-IsValid}
use hpulogc.Ring.Outcomes.{
  Drops, PutLeaves, put-returned, put-again, put-blocked, round_closed, round_fits, round_pads,
  round_full, Policy-cases, write_pad-Drops, evict-Drops, PutLeaves-Drops,
}

-- Stage by stage, from the state that the last round leaves. The record fits:
put_fits :
    (fuel : ℕ) (r : Ring) (items : List Item) (m : Msg)
    → IsValid r items
    → IsFit m
    → r.closed ≡ false
    → record_len m ≤ contig_bytes r
    → record_len m ≤ free_bytes r
    → PutLeaves r items m (put (suc fuel) r m)
unfolding write_record
put_fits fuel r items m v fit c a b = rw (put-returned r m fuel ok _ (round_fits r m c a b)) (
  [],
  entries items,
  items ++ (entry m (total_len r (record_len m)) ∷ []),
  write_record-IsValid r items m v fit a b,
  refl,
  entries-append items (entry m (total_len r (record_len m)) ∷ []),
  omega arith,
  refl,
  inr refl,
)

-- the ring is full for it, and the call goes on where records are dropped for it:
put_full :
    (fuel : ℕ) (r : Ring) (items : List Item) (m : Msg)
    → IsValid r items
    → record_len m ≤ r.capacity
    → r.closed ≡ false
    → put_round r m ≡ apply_policy r.policy r (record_len m)
    → ((r.policy ≡ overwrite)
        → PutLeaves
            (evict (r.tail - r.head) r (record_len m))
            (kept (record_len m) (free_bytes r) items)
            m
            (put fuel (evict (r.tail - r.head) r (record_len m)) m))
    → PutLeaves r items m (put (suc fuel) r m)
unfolding apply_policy
put_full fuel r items m v n c e later = elim (Policy-cases r.policy) [
  | inl p ↦ rw (put-returned r m fuel dropped _ (e ∙ ap (λ q. apply_policy q r (record_len m)) p)) (
    items,
    record {
      cap_min = v.cap_min;
      cap_max = v.cap_max;
      head-le-tail = v.head-le-tail;
      within = v.within;
      room_for_pad = v.room_for_pad;
      tiles = v.tiles;
    },
    refl,
    refl,
    refl,
    inr p,
  )
  | inr (inl p) ↦
      rw (put-again r m fuel _ (e ∙ ap (λ q. apply_policy q r (record_len m)) p))
        (PutLeaves-Drops r items _ _ m _ (evict-Drops r items (record_len m) v n p) c (later p))
  | inr (inr p) ↦
      rw (put-blocked r m fuel (e ∙ ap (λ q. apply_policy q r (record_len m)) p))
        (items, v, refl, refl, refl, p)
]

-- the record can stand where the tail is:
put_placed :
    (fuel : ℕ) (r : Ring) (items : List Item) (m : Msg)
    → IsValid r items
    → IsFit m
    → record_len m ≤ r.capacity
    → r.closed ≡ false
    → record_len m ≤ contig_bytes r
    → PutLeaves r items m (put (suc (suc fuel)) r m)
put_placed fuel r items m v fit n c a = elim (Bool-cases (leb (record_len m) (free_bytes r))) [
  | inl b ↦ put_fits (suc fuel) r items m v fit c a (leb→le _ _ b)
  | inr b ↦
      put_full (suc fuel) r items m v n c
        (round_full r m c (inr (a, leb→lt (record_len m) (free_bytes r) b)))
        (λ p.
          let k = evict-Keeps (r.tail - r.head) r (record_len m) in
          let e = evict-IsValid (r.tail - r.head) r items (record_len m) v n (omega arith) in
          put_fits fuel _ _ m e.0 fit (k.same_closed ∙ c) (rw (k.same_capacity, k.same_tail) a) e.1)
]

-- and after padding it can:
put_padded :
    (fuel : ℕ) (r : Ring) (items : List Item) (m : Msg)
    → IsValid r items
    → IsFit m
    → record_len m ≤ r.capacity
    → r.closed ≡ false
    → contig_bytes r < record_len m
    → contig_bytes r ≤ free_bytes r
    → PutLeaves r items m (put (suc (suc (suc fuel))) r m)
put_padded fuel r items m v fit n c a b =
    rw (put-again r m (suc (suc fuel)) _ (round_pads r m c a b)) (
      PutLeaves-Drops r items _ _ m _ (write_pad-Drops r items v b) c (
        put_placed fuel (write_pad r) _ m w.0 fit (rw d.same_capacity n) (d.same_closed ∙ c)
          (rw (d.same_capacity, w.1) (omega arith))))
  where
    w :
        IsValid (write_pad r) (items ++ (pad (contig_bytes r) ∷ []))
        × ((write_pad r).tail % r.capacity ≡ 0)
    w = write_pad-IsValid r items v b

    d : Drops r items (write_pad r) (items ++ (pad (contig_bytes r) ∷ []))
    d = write_pad-Drops r items v b

lt_then_le : {a b c : ℕ} → a < b → b ≤ c → a ≤ c
lt_then_le h k = omega arith

put_open :
    (fuel : ℕ) (r : Ring) (items : List Item) (m : Msg)
    → IsValid r items
    → IsFit m
    → record_len m ≤ r.capacity
    → r.closed ≡ false
    → PutLeaves r items m (put (suc (suc (suc (suc fuel)))) r m)
put_open fuel r items m v fit n c = elim (Bool-cases (leb (record_len m) (contig_bytes r))) [
  | inl a ↦ put_placed (suc (suc fuel)) r items m v fit n c (leb→le _ _ a)
  | inr a ↦ elim (Bool-cases (leb (contig_bytes r) (free_bytes r))) [
    | inl b ↦
        put_padded (suc fuel) r items m v fit n c (leb→lt (record_len m) (contig_bytes r) a)
          (leb→le _ _ b)
    | inr b ↦
        put_full (suc (suc (suc fuel))) r items m v n c
          (round_full r m c (
            inl
              (leb→lt (record_len m) (contig_bytes r) a, leb→lt (contig_bytes r) (free_bytes r) b)))
          (λ p.
            let k = evict-Keeps (r.tail - r.head) r (record_len m) in
            let e = evict-IsValid (r.tail - r.head) r items (record_len m) v n (omega arith) in
            let short = leb→lt (record_len m) (contig_bytes r) a in
            put_padded fuel _ _ m e.0 fit (rw k.same_capacity n) (k.same_closed ∙ c)
              (rw (k.same_capacity, k.same_tail) short)
              (lt_then_le (rw (k.same_capacity, k.same_tail) short) e.1))
  ]
]

-- `hpu_ring_put` on a valid ring, of a record that fits the ring: the call ends within four
-- rounds. Accepted, the record stands last, the records before it in order, and the oldest of
-- them dropped and counted under the overwrite policy alone. Dropped, which takes a closed ring or
-- the discard policy, or waiting, which takes the wait policy, it leaves every record.
pub put-PutLeaves :
    (r : Ring) (items : List Item) (m : Msg)
    → IsValid r items
    → IsFit m
    → record_len m ≤ r.capacity
    → PutLeaves r items m (put 4 r m)
put-PutLeaves r items m v fit n = elim (Bool-cases r.closed) [
  | inl c ↦ rw (put-returned r m 3 dropped _ (round_closed r m c)) (
    items,
    record {
      cap_min = v.cap_min;
      cap_max = v.cap_max;
      head-le-tail = v.head-le-tail;
      within = v.within;
      room_for_pad = v.room_for_pad;
      tiles = v.tiles;
    },
    refl,
    refl,
    refl,
    inl c,
  )
  | inr c ↦ put_open 0 r items m v fit n c
]
