-- ===== src/Ring/Evict.antt =====
-- src/ring/ringbuf_locked.c, the overwrite policy: the records that are dropped.
use hpulogc.Prelude.{
  ℕ, zero, suc, ◌+◌, ◌-◌, ◌%◌, ◌^◌, ◌≤◌, ◌<◌, ◌≡◌, refl, ap, ◌∙◌, sym, length-append, Bool-cases,
  inl, inr, List, [], ◌∷◌, ◌++◌, if◌then◌else◌, leb, leb→le, le→leb, arith, length,
}
use mathlib.Core.List.{append_assoc}
use hpulogc.Ring.State.{Ring, Msg, read_meta, is_pad}
use hpulogc.Ring.Records.{evict_one, evict, free_bytes}
use hpulogc.Ring.Views.{read_meta-Describes, read_meta-pad}
use hpulogc.Ring.Layout.{Item, entry, pad, size, IsValid, entries, At, Tiles-le, size_pos}

-- What the policy keeps of the items, when `free` bytes are free and `need` are needed.
pub kept : ℕ → ℕ → List Item → List Item
kept need free [] = []
kept need free (it ∷ items) = if leb need free then it ∷ items else kept need (free + size it) items

-- How many of the items that the policy drops are records.
pub evicted : ℕ → ℕ → List Item → ℕ
evicted need free [] = 0
evicted need free (it ∷ items) =
    if leb need free then 0 else length (entries (it ∷ [])) + evicted need (free + size it) items

-- The length and the kind that the header of the oldest item shows.
pub read_head :
    (r : Ring) (it : Item)
    → r.capacity < 2 ^ 32
    → At r.buf r.capacity r.head it
    → ((read_meta r.buf (r.head % r.capacity)).total_len ≡ size it)
      × ((if is_pad (read_meta r.buf (r.head % r.capacity)).level_flags then 0 else 1)
          ≡ length (entries (it ∷ [])))
read_head r (entry m total) c at =
    let d =
      read_meta-Describes r.buf (r.head % r.capacity) m total at.fits.0 (omega arith) at.stands in
    (d.total_is, rw d.ordinary)
read_head r (pad n) c at =
    let e = read_meta-pad r.buf (r.head % r.capacity) n (omega arith) at.stands in (e.0, rw e.1)

evict_one-IsValid :
    (r : Ring) (it : Item) (items : List Item)
    → IsValid r (it ∷ items)
    → IsValid (evict_one r) items
      × ((evict_one r).overwritten ≡ r.overwritten + length (entries (it ∷ [])))
      × (free_bytes (evict_one r) ≡ free_bytes r + size it)
unfolding evict_one
evict_one-IsValid r it items v = (
  record {
    cap_min = v.cap_min;
    cap_max = v.cap_max;
    head-le-tail = omega (arith, e.0, later);
    within = omega (arith, e.0);
    room_for_pad = v.room_for_pad;
    tiles = rw e.0 v.tiles.1;
  },
  ground (arith, e.1),
  omega (arith, e.0, later),
)
  where
    e :
        ((read_meta r.buf (r.head % r.capacity)).total_len ≡ size it)
        × ((if is_pad (read_meta r.buf (r.head % r.capacity)).level_flags then 0 else 1)
            ≡ length (entries (it ∷ [])))
    e = read_head r it v.cap_max v.tiles.0

    later : r.head + size it ≤ r.tail
    later = Tiles-le r.buf r.capacity (r.head + size it) items r.tail v.tiles.1

-- What evicting leaves of the ring alone.
pub record Keeps (r r' : Ring) : Type 0 where
  pub same_capacity : r'.capacity ≡ r.capacity
  pub same_policy : r'.policy ≡ r.policy
  pub same_tail : r'.tail ≡ r.tail
  pub same_dropped : r'.dropped ≡ r.dropped
  pub same_closed : r'.closed ≡ r.closed

evict_one-Keeps : (r : Ring) → Keeps r (evict_one r)
unfolding evict_one
evict_one-Keeps r = record {
  same_capacity = refl;
  same_policy = refl;
  same_tail = refl;
  same_dropped = refl;
  same_closed = refl;
}

pub evict-Keeps : (fuel : ℕ) (r : Ring) (need : ℕ) → Keeps r (evict fuel r need)
unfolding evict
evict-Keeps zero r need = ground arith
evict-Keeps (suc fuel) r need =
    ground (arith, evict_one-Keeps r, evict-Keeps fuel (evict_one r) need)

-- The loop keeps exactly the items that `kept` names, it ends with `need` bytes free, and it
-- counts the records that it drops.
pub evict-IsValid :
    (fuel : ℕ) (r : Ring) (items : List Item) (need : ℕ)
    → IsValid r items
    → need ≤ r.capacity
    → r.tail - r.head ≤ fuel
    → IsValid (evict fuel r need) (kept need (free_bytes r) items)
      × (need ≤ free_bytes (evict fuel r need))
      × ((evict fuel r need).overwritten ≡ r.overwritten + evicted need (free_bytes r) items)
unfolding evict kept evicted
evict-IsValid zero r [] need v n f = (v, omega arith, omega arith)
evict-IsValid (suc fuel) r [] need v n f =
    rw (le→leb need (free_bytes r) (omega arith)) (v, omega arith, omega arith)
evict-IsValid zero r (it ∷ items) need v n f = absurd (
    omega (
      arith,
      size_pos it v.tiles.0.fits,
      Tiles-le r.buf r.capacity (r.head + size it) items r.tail v.tiles.1,
    ))
evict-IsValid (suc fuel) r (it ∷ items) need v n f = elim (Bool-cases (leb need (free_bytes r))) [
  | inl enough ↦ rw enough (v, leb→le need (free_bytes r) enough, omega arith)
  | inr short ↦ rw short (
      let one = evict_one-IsValid r it items v in
      let k = evict_one-Keeps r in
      let rest =
        evict-IsValid fuel (evict_one r) items need one.0 (rw k.same_capacity n)
          (omega (arith, one.2, k.same_capacity, one.0.within, size_pos it v.tiles.0.fits)) in
      (rw (← one.2) rest.0, rest.1, rw (← one.2) (omega (arith, rest.2, one.1))))
]

-- The records that the policy drops.
pub gone : ℕ → ℕ → List Item → List Msg
gone need free [] = []
gone need free (it ∷ items) =
    if leb need free then [] else entries (it ∷ []) ++ gone need (free + size it) items

entries-cons :
    (it : Item) (items : List Item) → entries (it ∷ items) ≡ entries (it ∷ []) ++ entries items
entries-cons (entry m total) items = refl
entries-cons (pad n) items = refl

pub gone-kept :
    (need free : ℕ) (items : List Item)
    → (entries items ≡ gone need free items ++ entries (kept need free items))
      × (evicted need free items ≡ length (gone need free items))
unfolding gone kept evicted
gone-kept need free [] = (refl, refl)
gone-kept need free (it ∷ items) = elim (Bool-cases (leb need free)) [
  | inl enough ↦ rw enough (refl, refl)
  | inr short ↦ rw short (
      let rest = gone-kept need (free + size it) items in
      (
        entries-cons it items
            ∙ ap (◌++◌ (entries (it ∷ []))) rest.0
            ∙ sym (append_assoc (entries (it ∷ [])) _ _),
        rw (length-append (entries (it ∷ []))) (omega (arith, rest.1)),
      ))
]
