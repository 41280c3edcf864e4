-- ===== src/Queue/Handed.antt =====
-- src/output/sink_queue.c: what a sink is handed for an event of the queue.
use mathlib.Core.List.{append_assoc}
use hpulogc.Prelude.{
  ℕ, ◌≤◌, ◌≡◌, refl, Bool, true, false, Bool-cases, inl, inr, ◌&&◌, List, [], ◌∷◌, ◌++◌,
  if◌then◌else◌, ltb, ◌==◌, arith, length, take, drop, take-append_length, Bytes,
}
use hpulogc.Fields.Filter.{FilterKey, Filtered, FilterResult, untouched, filtered, filter_apply}
use hpulogc.Queue.State.{Event}
use hpulogc.Queue.Scratch.{Allocator, Scratch, written_over, filter_left, filter_into, seen}

-- What a sink is handed for the events of a batch, one after the other and each once; the Boolean is
-- whether the whitelist removes a field of one of them. Where it removes no field of an event, that is
-- the event itself. Otherwise all but its region is of the event, with the fields that are left; its
-- region is the start of the scratch buffer, which holds the fields that are left of this event if no
-- later event of the batch loses a field, and else has been written over.
pub data Batch (keys : List FilterKey) : Bool → List Event → List Event → Type 0 where
  empty : Batch keys false [] []
  alone :
      {b : Bool} {e : Event} {es es' : List Event} (cap : ℕ)
      → filter_apply keys true cap e.fields_wire e.field_count ≡ untouched
      → Batch keys b es es'
      → Batch keys b (e ∷ es) (e ∷ es')
  shared :
      {b : Bool} {e : Event} {es es' : List Event} (cap : ℕ) (v : Filtered) (region : Bytes)
      → filter_apply keys true cap e.fields_wire e.field_count ≡ filtered v
      → (b ≡ false → region ≡ v.wire)
      → Batch keys b es es'
      → Batch keys true (e ∷ es) (
          record e { fields_wire = region; field_count = length v.fields; fields = v.fields } ∷ es')

-- Batches of at most `batch_max` events, one behind the other.
pub data AllHanded (keys : List FilterKey) (batch_max : ℕ) : List Event → List Event → Type 0 where
  done : AllHanded keys batch_max [] []
  batch :
      {b : Bool} {xs xs' ys ys' : List Event}
      → length xs ≤ batch_max
      → Batch keys b xs xs'
      → AllHanded keys batch_max ys ys'
      → AllHanded keys batch_max (xs ++ ys) (xs' ++ ys')

pub AllHanded-append :
    {keys : List FilterKey} {batch_max : ℕ} {xs xs' ys ys' : List Event}
    → AllHanded keys batch_max xs xs'
    → AllHanded keys batch_max ys ys'
    → AllHanded keys batch_max (xs ++ ys) (xs' ++ ys')
AllHanded-append done b = b
AllHanded-append {ys = zs} {ys' = zs'} (batch {xs = xs} {xs' = xs'} {ys = ys} {ys' = ys'} l h a) b =
    rw (append_assoc xs ys zs, append_assoc xs' ys' zs') (batch l h (AllHanded-append a b))

module _ (mem : Allocator) (keys : List FilterKey) (e : Event) (sc last : Scratch) where
  own_region :
      (v : Filtered)
      → last ≡ written_over mem v sc
      → (if (written_over mem v sc).block == last.block
          then take (length v.wire) last.bytes
          else mem.freed (written_over mem v sc).block (length v.wire))
        ≡ v.wire
  unfolding written_over
  own_region v h =
      rw (h, same_block (written_over mem v sc).block)
        (take-append_length v.wire (drop (length v.wire) sc.bytes))
    where
      same_block : (n : ℕ) → (n == n) ≡ true
      same_block n = ground arith

  of_result :
      (b : Bool) (es es' : List Event) (r : FilterResult)
      → filter_apply keys true sc.cap e.fields_wire e.field_count ≡ r
      → (b ≡ false → last ≡ (filter_left mem e sc r).1)
      → Batch keys b es es'
      → (b' : Bool) × Batch keys b' (e ∷ es) (seen mem last (filter_left mem e sc r).0 ∷ es')
        × (b' ≡ false → last ≡ sc)
  of_result b es es' untouched h kept rest = (b, alone sc.cap h rest, kept)
  of_result b es es' (filtered v) h kept rest =
      (true, shared sc.cap v _ h (λ z. own_region v (kept z)) rest, λ z. absurd (cc z))

  not_filtered :
      (ltb 0 (length keys) && (ltb 0 e.field_count && ltb 0 (length e.fields_wire))) ≡ false
      → filter_apply keys true sc.cap e.fields_wire e.field_count ≡ untouched
  unfolding filter_apply
  not_filtered h = ground arith

  -- Whatever the buffer has become when the batch is handed out.
  pub filter_into-Batch :
      (b : Bool) (es es' : List Event)
      → (b ≡ false → last ≡ (filter_into mem keys e sc).1)
      → Batch keys b es es'
      → (b' : Bool) × Batch keys b' (e ∷ es) (seen mem last (filter_into mem keys e sc).0 ∷ es')
        × (b' ≡ false → last ≡ sc)
  unfolding filter_into
  filter_into-Batch b es es' kept rest =
      elim (Bool-cases
        (ltb 0 (length keys) && (ltb 0 e.field_count && ltb 0 (length e.fields_wire)))) [
          | inl some_fields ↦
              rw some_fields (of_result b es es' _ refl (rw some_fields at kept) rest)
          | inr no_fields ↦
              rw no_fields (b, alone sc.cap (not_filtered no_fields) rest, rw no_fields at kept)
        ]
