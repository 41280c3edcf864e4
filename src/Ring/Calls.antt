-- ===== src/Ring/Calls.antt =====
-- src/ring/ringbuf_locked.c: `hpu_ring_put`, `hpu_ring_get` and the small calls.
use hpulogc.Prelude.{
  ℕ, zero, suc, ◌+◌, ◌-◌, ◌%◌, ◌^◌, true, List, [], ◌∷◌, if◌then◌else◌, leb, ltb, ◌==◌,
}
use hpulogc.Memory.{store, load}
use hpulogc.Ring.State.{
  Policy, discard, overwrite, wait, Status, ok, dropped, Msg, meta_size, is_pad, Ring, View,
}
use hpulogc.Ring.Records.{
  align8, record_len, write_record, write_pad, view_at, free_bytes, contig_bytes, evict,
}

-- How one round of `hpu_ring_put`'s loop ends: with the call's result, with another round, or
-- waiting for `not_full`.
pub data Round : Type 0 where
  returned : Status → Ring → Round
  again : Ring → Round
  blocked : Round

-- The ring is full for this record. Every record is at least a byte, so `r.tail - r.head` rounds
-- empty the ring.
unfoldable pub apply_policy : Policy → Ring → ℕ → Round
apply_policy overwrite r need = again (evict (r.tail - r.head) r need)
apply_policy wait r need = blocked
apply_policy discard r need = returned dropped (record r { dropped = r.dropped + 1 })

abbrev pub total_len : Ring → ℕ → ℕ
total_len r need =
    if ltb (contig_bytes r - need) (align8 meta_size) then contig_bytes r % 2 ^ 32 else need

unfoldable pub put_round : Ring → Msg → Round
put_round r m =
    let need = record_len m in
    if r.closed
    then returned dropped (record r { dropped = r.dropped + 1 })
    else if ltb (contig_bytes r) need
    then (if leb (contig_bytes r) (free_bytes r)
        then again (write_pad r)
        else apply_policy r.policy r need)
    else if leb need (free_bytes r)
    then returned ok (write_record r m (total_len r need))
    else apply_policy r.policy r need

-- What a call of `hpu_ring_put` comes to; `unfinished` is that the fuel ran out.
pub data PutResult : Type 0 where
  finished : Status → Ring → PutResult
  waiting : Ring → PutResult
  unfinished : PutResult

unfoldable pub put : ℕ → Ring → Msg → PutResult
put zero r m = unfinished
put (suc fuel) r m = elim (put_round r m) [
  | returned s r' ↦ finished s r'
  | again r' ↦ put fuel r' m
  | blocked ↦ waiting r
]

-- What a look at the ring finds: nothing, padding that is skipped, or a record.
pub data Look : Type 0 where
  nothing : Look
  skipped : Ring → Look
  found : View → Ring → Look

-- The copy in `staging` where it is large enough, and the ring's own memory else.
unfoldable pub copy_out : Ring → ℕ → ℕ → View
copy_out r total staging_len =
    let off = r.head % r.capacity in
    if leb total staging_len
    then view_at (store (λ a. 0) 0 (load r.buf off total)) 0
    else view_at r.buf off

unfoldable pub look : Ring → ℕ → Look
look r staging_len =
    let view = view_at r.buf (r.head % r.capacity) in
    let total = view.meta.total_len in
    let r' = record r { head = r.head + total } in
    if r.head == r.tail
    then nothing
    else if is_pad view.meta.level_flags
    then skipped r'
    else found (copy_out r total staging_len) r'

-- What a call of `hpu_ring_get` comes to.
pub data GetResult : Type 0 where
  record_got : View → Ring → GetResult
  none_left : Ring → GetResult
  asleep : Ring → GetResult
  unfinished : GetResult

-- The loop up to its first wait, with fuel: `asleep` is that it is about to look at the clock.
unfoldable pub get_now : ℕ → Ring → ℕ → ℕ → GetResult
get_now zero r staging_len timeout_ms = GetResult.unfinished
get_now (suc fuel) r staging_len timeout_ms = elim (look r staging_len) [
  | found v r' ↦ record_got v r'
  | skipped r' ↦ get_now fuel r' staging_len timeout_ms
  | nothing ↦ if r.closed then none_left r else if timeout_ms == 0 then none_left r else asleep r
]

-- The whole call. Each entry of `wakes` is a clock reading, and the ring as the other threads leave
-- it when the wait that follows ends; where they run out the call still sleeps.
unfoldable pub get : ℕ → Ring → ℕ → ℕ → ℕ → List (ℕ × Ring) → GetResult
get fuel r staging_len timeout_ms deadline [] = get_now fuel r staging_len timeout_ms
get fuel r staging_len timeout_ms deadline ((now, woken) ∷ wakes) =
    elim (get_now fuel r staging_len timeout_ms) [
      | asleep r' ↦
          (let rest = get fuel woken staging_len timeout_ms deadline wakes in
            if leb deadline now then none_left r' else rest)
      | other ↦ other
    ]

unfoldable pub close : Ring → Ring
close r = record r { closed = true }

abbrev pub used : Ring → ℕ
used r = r.tail - r.head

abbrev pub counters : Ring → ℕ × ℕ
counters r = (r.dropped, r.overwritten)
