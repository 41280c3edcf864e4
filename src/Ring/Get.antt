-- ===== src/Ring/Get.antt =====
-- src/ring/ringbuf_locked.c, `hpu_ring_get`: the record that is returned, staged or in place, and the padding before it.
use hpulogc.Prelude.{
  ℕ, zero, suc, ◌+◌, ◌%◌, ◌^◌, ◌≤◌, ◌<◌, ◌≡◌, ◌≢◌, refl, Bool, true, false, Bool-cases, inl, inr,
  ◌⊎◌, List, [], ◌∷◌, if◌then◌else◌, leb, ◌==◌, ==_iff, arith, length,
}
use hpulogc.Memory.Regions.{Holds-copy}
use hpulogc.Ring.State.{Ring, Msg}
use hpulogc.Ring.Records.{view_at, record_bytes}
use hpulogc.Ring.Calls.{
  copy_out, nothing, skipped, found, look, GetResult, record_got, none_left, asleep, get_now,
}
use hpulogc.Ring.Views.{Delivers, view_at-Delivers, read_meta-pad, length-record_bytes}
use hpulogc.Ring.Layout.{Item, entry, pad, size, IsValid, At, entries, Tiles-le, size_pos}

-- The copy that the caller is handed delivers the record, in its own buffer or in the ring's.
copy_out-Delivers :
    (r : Ring) (m : Msg) (total staging_len : ℕ)
    → r.capacity < 2 ^ 32
    → At r.buf r.capacity r.head (entry m total)
    → Delivers (copy_out r total staging_len) m
unfolding copy_out
copy_out-Delivers r m total staging_len c at = elim (Bool-cases (leb total staging_len)) [
  | inl staged ↦
      rw staged
        (view_at-Delivers _ 0 m total at.fits.0 at.fits.1 (omega (arith, at.below_end)) (
          Holds-copy r.buf (λ a. 0) (r.head % r.capacity) 0 total (record_bytes m total)
            (omega (arith, at.fits.1, length-record_bytes m total)) at.stands)).0
  | inr in_place ↦
      rw in_place
        (view_at-Delivers r.buf (r.head % r.capacity) m total at.fits.0 at.fits.1
          (omega (arith, at.below_end)) at.stands).0
]

-- The ring without its oldest item.
abbrev advance : Ring → ℕ → Ring
advance r n = record r { head = r.head + n }

advance-IsValid :
    (r : Ring) (it : Item) (items : List Item)
    → IsValid r (it ∷ items)
    → IsValid (advance r (size it)) items × ((r.head == r.tail) ≡ false)
advance-IsValid r it items v = (
  record {
    cap_min = v.cap_min;
    cap_max = v.cap_max;
    head-le-tail = later;
    within = omega arith;
    room_for_pad = v.room_for_pad;
    tiles = v.tiles.1;
  },
  ground (arith, later, size_pos it v.tiles.0.fits),
)
  where
    later : r.head + size it ≤ r.tail
    later = Tiles-le r.buf r.capacity (r.head + size it) items r.tail v.tiles.1

look-nil : (r : Ring) (staging_len : ℕ) → IsValid r [] → look r staging_len ≡ nothing
unfolding look
look-nil r staging_len v = ground (arith, v.tiles)

look-entry :
    (r : Ring) (m : Msg) (total : ℕ) (items : List Item) (staging_len : ℕ)
    → IsValid r (entry m total ∷ items)
    → look r staging_len ≡ found (copy_out r total staging_len) (advance r total)
unfolding look
look-entry r m total items staging_len v =
    let at = v.tiles.0 in
    let d =
      view_at-Delivers r.buf (r.head % r.capacity) m total at.fits.0 at.fits.1
        (omega (arith, at.below_end, v.cap_max)) at.stands in
    rw ((advance-IsValid r (entry m total) items v).1, d.0.ordinary, d.1)

look-pad :
    (r : Ring) (n : ℕ) (items : List Item) (staging_len : ℕ)
    → IsValid r (pad n ∷ items)
    → look r staging_len ≡ skipped (advance r n)
unfolding look view_at
look-pad r n items staging_len v =
    let at = v.tiles.0 in
    let e =
      read_meta-pad r.buf (r.head % r.capacity) n (omega (arith, at.below_end, v.cap_max))
        at.stands in
    rw ((advance-IsValid r (pad n) items v).1, e.0, e.1)

-- What the call leaves, by what it returns.
abbrev pub GetLeaves : Ring → List Item → ℕ → GetResult → Type 0
GetLeaves r items timeout_ms (record_got v r') =
    (m : Msg) × (items' : List Item) × (entries items ≡ m ∷ entries items')
    × Delivers v m
    × IsValid r' items'
    × (r'.policy ≡ r.policy)
    × (r'.capacity ≡ r.capacity)
GetLeaves r items timeout_ms (none_left r') =
    (entries items ≡ [])
    × IsValid r' []
    × ((r.closed ≡ true) ⊎ (timeout_ms ≡ 0))
    × (r'.policy ≡ r.policy)
    × (r'.capacity ≡ r.capacity)
GetLeaves r items timeout_ms (asleep r') =
    (entries items ≡ []) × IsValid r' [] × (r.closed ≡ false) × (timeout_ms ≢ 0)
GetLeaves r items timeout_ms GetResult.unfinished = ⊥

-- How the loop ends at an empty ring.
nil_leaves :
    (r : Ring) (timeout_ms : ℕ)
    → IsValid r []
    → (b : Bool) → r.closed ≡ b
    → (t : Bool) → (timeout_ms == 0) ≡ t
    → GetLeaves r [] timeout_ms (if b then none_left r else if t then none_left r else asleep r)
nil_leaves r timeout_ms v true c t e = (refl, v, inl c, refl, refl)
nil_leaves r timeout_ms v false c true e = (refl, v, inr ((==_iff timeout_ms 0).0 e), refl, refl)
nil_leaves r timeout_ms v false c false e = (refl, v, c, λ z. ground arith)

-- `hpu_ring_get` up to its first wait, on a valid ring: it returns the oldest record, and leaves
-- the later ones; or it finds no record, and then gives up exactly if the ring is closed or
-- there is no timeout.
pub get_now-GetLeaves :
    (fuel : ℕ) (r : Ring) (items : List Item) (staging_len timeout_ms : ℕ)
    → length items < fuel
    → IsValid r items
    → GetLeaves r items timeout_ms (get_now fuel r staging_len timeout_ms)
unfolding get_now
get_now-GetLeaves zero r items staging_len timeout_ms f v = elim f [ ]
get_now-GetLeaves (suc fuel) r [] staging_len timeout_ms f v =
    rw (look-nil r staging_len v, get_now)
      (nil_leaves r timeout_ms v r.closed refl (timeout_ms == 0) refl)
get_now-GetLeaves (suc fuel) r (entry m total ∷ items) staging_len timeout_ms f v =
    rw (look-entry r m total items staging_len v, get_now)
      (
        m,
        items,
        refl,
        copy_out-Delivers r m total staging_len v.cap_max v.tiles.0,
        (advance-IsValid r (entry m total) items v).0,
        refl,
        refl,
      )
get_now-GetLeaves (suc fuel) r (pad n ∷ items) staging_len timeout_ms f v =
    rw (look-pad r n items staging_len v, get_now)
      (get_now-GetLeaves fuel (advance r n) items staging_len timeout_ms (omega arith)
        (advance-IsValid r (pad n) items v).0)
