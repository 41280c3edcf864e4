-- ===== src/Queue/Drained.antt =====
-- src/output/sink_queue.c, `sq_worker_main`: the batches of a sweep.
use hpulogc.Prelude.{
  ℕ, Bool, zero, suc, ◌+◌, ◌≤◌, ◌<◌, ◌≡◌, ◌≢◌, ◌⊎◌, refl, ap, ◌∙◌, inl, inr, Bool-cases, List, [],
  ◌∷◌, ◌++◌, arith, ltb, length, length-append,
}
use hpulogc.Memory.{Mem}
use hpulogc.Fields.Filter.{FilterKey}
use hpulogc.Queue.State.{Event, header_size, packed_size, packed}
use hpulogc.Queue.Push.{pad_header}
use mathlib.Core.List.{append-nil}
use hpulogc.Queue.Scratch.{Allocator, Scratch, Pending}
use hpulogc.Queue.Handed.{Batch, empty, AllHanded, done, batch}
use hpulogc.Queue.Worker.{collect, batched, batches}
use hpulogc.Queue.Collected.{Collected, collect-Collected}
use hpulogc.Queue.Stream.{
  Item, record_of, bridge, stream, events, Stands, no_events, length-packed, packed_size_min,
}

-- The events of all batches, one behind the other.
abbrev pub flat : List (List Event) → List Event
flat [] = []
flat (b ∷ bs) = b ++ flat bs

pub items_bound : (items : List Item) → length items ≤ length (stream items)
items_bound [] = omega arith
items_bound (record_of e ∷ items) = omega (
  arith,
  items_bound items,
  length-append (packed (packed_size e) e) (stream items),
  length-packed (packed_size e) e,
  packed_size_min e,
)
items_bound (bridge ∷ items) =
    omega (arith, items_bound items, length-append pad_header (stream items))

nothing_taken : {keys : List FilterKey} {b : Bool} {xs : List Event} → Batch keys b xs [] → xs ≡ []
nothing_taken empty = refl

module _ (mem : Allocator) (keys : List FilterKey) (batch_max cap : ℕ) (sweep : Mem) (avail : ℕ)
    (room : batch_max ≢ 0) where
  abbrev EmitsFrom : ℕ → Type 0
  EmitsFrom fuel =
      (off : ℕ) (sc : Scratch) (items : List Item)
      → length items ≤ fuel
      → Stands sweep cap avail off items
      → AllHanded keys batch_max (events items)
          (flat (batches mem fuel keys cap sweep avail batch_max off sc).0)

  emits_batch :
      (fuel : ℕ)
      → EmitsFrom fuel
      → (items : List Item) → length items ≤ suc fuel
      → (sc : Scratch) (out : List Pending × ℕ × Scratch)
      → Collected mem keys sweep cap avail batch_max items sc out
      → AllHanded keys batch_max
          (events items)
          (flat (batched mem out (batches mem fuel keys cap sweep avail batch_max out.1 out.2)).0)
  emits_batch fuel rec items n sc0 ([], stop, sc) c =
      let none_left : events items ≡ c.taken =
        c.split ∙ ap (λ z. c.taken ++ z) (c.progress room refl) ∙ append-nil c.taken in
      rw (none_left, nothing_taken c.handed) done
  emits_batch fuel rec items n sc0 (p ∷ ps, stop, sc) c =
      rw c.split (batch c.at_most c.handed (rec stop sc c.left (fewer c.shorter) c.stands))
    where
      fewer : ((p ∷ ps) ≡ []) ⊎ (length c.left < length items) → length c.left ≤ fuel
      fewer (inl x) = cc
      fewer (inr l) = omega (arith, l, n)

  -- The batches that the worker hands out of a sweep that holds these items are, one behind the other,
  -- the events of the items in order; none is lost, and a bridge is no event.
  pub batches-events :
      (fuel off : ℕ) (sc : Scratch) (items : List Item)
      → length items ≤ fuel
      → Stands sweep cap avail off items
      → AllHanded keys batch_max
          (events items)
          (flat (batches mem fuel keys cap sweep avail batch_max off sc).0)
  unfolding batches
  batches-events zero off sc [] n s = done
  batches-events zero off sc (it ∷ items) n s = absurd (omega arith)
  batches-events (suc fuel) off sc items n s = elim (Bool-cases (ltb avail (off + header_size))) [
    | inl stop ↦ rw (stop, no_events sweep cap avail off items s (ground arith)) done
    | inr go ↦ rw go (
        emits_batch fuel (batches-events fuel) items n sc
          (collect mem avail keys cap sweep avail batch_max off sc)
          (collect-Collected mem keys cap sweep avail avail batch_max off sc items
            (omega (arith, s.ends, items_bound items)) s))
  ]
