-- ===== src/Ring/Layout.antt =====
-- src/ring/ringbuf_locked.c: the ring's memory as a sequence of records and paddings, and what keeps it.
use native.Mathlib.Nat.{mod-eq_of_lt, div-add-mod, mul-le-mul_left}
use native.Mathlib.Decide.{dec_lt}
use hpulogc.Prelude.{
  ℕ, ◌+◌, ◌-◌, ◌*◌, ◌/◌, ◌%◌, ◌^◌, ◌≤◌, ◌<◌, ◌≡◌, refl, ap, List, [], ◌∷◌, ◌++◌, inl, inr, ◌⊎◌,
  arith, length, Bytes, some,
}
use hpulogc.Memory.{Mem, store}
use hpulogc.Memory.Regions.{
  Holds, Holds-store, Holds-store_other, apart-mod, mod-add_inside, lap-mod,
}
use hpulogc.Memory.Words.{length-pack}
use hpulogc.Ring.State.{Policy, Msg, Ring, meta_size, meta_fields}
use hpulogc.Ring.Records.{
  align8, payload, record_bytes, pad_bytes, pad_meta, create, free_bytes, contig_bytes,
}
use hpulogc.Ring.Views.{IsFit, length-record_bytes}

-- A record with the length it takes, or padding.
pub data Item : Type 0 where
  entry : Msg → ℕ → Item
  pad : ℕ → Item

abbrev pub size : Item → ℕ
size (entry m total) = total
size (pad n) = n

abbrev pub item_bytes : Item → Bytes
item_bytes (entry m total) = record_bytes m total
item_bytes (pad n) = pad_bytes n

abbrev pub FitsIn : Item → Type 0
FitsIn (entry m total) = IsFit m × (meta_size + length (payload m) ≤ total)
FitsIn (pad n) = meta_size ≤ n

-- An item stands whole below the end of the buffer.
pub record At (mem : Mem) (cap p : ℕ) (it : Item) : Type 0 where
  pub fits : FitsIn it
  pub below_end : p % cap + size it ≤ cap
  pub stands : Holds mem (p % cap) (item_bytes it)

-- The items stand one after the other from position `p` to position `q`.
abbrev pub Tiles : Mem → ℕ → ℕ → List Item → ℕ → Type 0
Tiles mem cap p [] q = p ≡ q
Tiles mem cap p (it ∷ items) q = At mem cap p it × Tiles mem cap (p + size it) items q

-- The state of a ring that holds these items.
pub record IsValid (r : Ring) (items : List Item) : Type 0 where
  pub cap_min : meta_size * 2 ≤ r.capacity
  pub cap_max : r.capacity < 2 ^ 32
  pub head-le-tail : r.head ≤ r.tail
  pub within : r.tail ≤ r.head + r.capacity
  pub room_for_pad : r.tail % r.capacity + meta_size ≤ r.capacity
  pub tiles : Tiles r.buf r.capacity r.head items r.tail

-- The records, oldest first, without the padding.
abbrev pub entries : List Item → List Msg
entries [] = []
entries (entry m total ∷ items) = m ∷ entries items
entries (pad n ∷ items) = entries items

pub entries-append : (xs ys : List Item) → entries (xs ++ ys) ≡ entries xs ++ entries ys
entries-append [] ys = refl
entries-append (entry m total ∷ xs) ys = ap (◌∷◌ m) (entries-append xs ys)
entries-append (pad n ∷ xs) ys = entries-append xs ys

pub length-pad_bytes : (n : ℕ) → length (pad_bytes n) ≡ meta_size
unfolding pad_bytes
length-pad_bytes n = length-pack (meta_fields (pad_meta n))

pub length-item_bytes : (it : Item) → FitsIn it → length (item_bytes it) ≤ size it
length-item_bytes (entry m total) fit = omega (arith, length-record_bytes m total)
length-item_bytes (pad n) fit = omega (arith, length-pad_bytes n)

pub size_pos : (it : Item) → FitsIn it → 0 < size it
size_pos (entry m total) fit = omega arith
size_pos (pad n) fit = omega arith

pub size_min : (it : Item) → FitsIn it → meta_size ≤ size it
size_min (entry m total) fit = omega arith
size_min (pad n) fit = fit

pub Tiles-le : (mem : Mem) (cap p : ℕ) (items : List Item) (q : ℕ) → Tiles mem cap p items q → p ≤ q
Tiles-le mem cap p [] q t = omega arith
Tiles-le mem cap p (it ∷ items) q t = omega (arith, Tiles-le mem cap (p + size it) items q t.1)

pub Tiles-concat :
    (mem : Mem) (cap p : ℕ) (items : List Item) (q : ℕ) (it : Item) (s : ℕ)
    → Tiles mem cap p items q
    → At mem cap q it
    → q + size it ≡ s
    → Tiles mem cap p (items ++ (it ∷ [])) s
Tiles-concat mem cap p [] q it s t at e = rw t (at, e)
Tiles-concat mem cap p (x ∷ items) q it s t at e =
    (t.0, Tiles-concat mem cap (p + size x) items q it s t.1 at e)

-- A write behind the tail, into free space, leaves every item in place.
pub Tiles-store :
    (mem : Mem) (cap p : ℕ) (items : List Item) (q n : ℕ) (bs : Bytes)
    → 0 < cap
    → length bs ≤ n
    → q + n ≤ p + cap
    → q % cap + n ≤ cap
    → Tiles mem cap p items q
    → Tiles (store mem (q % cap) bs) cap p items q
Tiles-store mem cap p [] q n bs c l room below t = t
Tiles-store mem cap p (it ∷ items) q n bs c l room below t = (
  record {
    fits = t.0.fits;
    below_end = t.0.below_end;
    stands = Holds-store_other mem (q % cap) bs (p % cap) (item_bytes it) (shrink apart) t.0.stands;
  },
  Tiles-store mem cap (p + size it) items q n bs c l (omega arith) below t.1,
)
  where
    apart : (p % cap + size it ≤ q % cap) ⊎ (q % cap + n ≤ p % cap)
    apart =
        apart-mod cap p (size it) q n c (Tiles-le mem cap (p + size it) items q t.1) room
          t.0.below_end below

    shrink :
        (p % cap + size it ≤ q % cap) ⊎ (q % cap + n ≤ p % cap)
        → (p % cap + length (item_bytes it) ≤ q % cap) ⊎ (q % cap + length bs ≤ p % cap)
    shrink (inl a) = inl (omega (arith, length-item_bytes it t.0.fits))
    shrink (inr a) = inr (omega arith)

-- Where the head's address is below the tail's, what is free reaches past the end.
pub contig-le-free :
    (cap h t : ℕ) → h ≤ t → t ≤ h + cap → h % cap < t % cap → cap - t % cap ≤ cap - (t - h)
contig-le-free cap h t le within lt = elim (dec_lt (h / cap) (t / cap)) [
  | yes later ↦ absurd (
      omega (
        arith,
        div-add-mod h cap,
        div-add-mod t cap,
        mul-le-mul_left {m = h / cap + 1} {n = t / cap} cap (omega arith),
      ))
  | no same_lap ↦ omega (
    arith,
    div-add-mod h cap,
    div-add-mod t cap,
    mul-le-mul_left {m = t / cap} {n = h / cap} cap (omega arith),
  )
]

-- A record that is extended to the end of the buffer does not reach the oldest item.
pub extension_fits :
    {r : Ring} {items : List Item} (need : ℕ)
    → IsValid r items
    → need ≤ free_bytes r
    → contig_bytes r < need + meta_size
    → need ≤ contig_bytes r
    → contig_bytes r ≤ free_bytes r
extension_fits {r} {items = []} need v room short below = omega arith
extension_fits {r} {items = it ∷ items} need v room short below = go (
    apart-mod r.capacity r.head (size it) r.tail need (omega arith)
      (Tiles-le r.buf r.capacity (r.head + size it) items r.tail v.tiles.1) (omega arith)
      v.tiles.0.below_end (omega arith))
  where
    big : meta_size ≤ size it
    big = size_min it v.tiles.0.fits

    go :
        (r.head % r.capacity + size it ≤ r.tail % r.capacity)
          ⊎ (r.tail % r.capacity + need ≤ r.head % r.capacity)
        → contig_bytes r ≤ free_bytes r
    go (inl behind) =
        contig-le-free r.capacity r.head r.tail v.head-le-tail v.within (omega (arith, big))
    go (inr ahead) = absurd (omega (arith, big, v.tiles.0.below_end))

-- Where the tail stands after an item that ends at the end of the buffer or leaves room for
-- another padding.
room_after :
    (cap t n : ℕ)
    → meta_size * 2 ≤ cap
    → (t % cap + n ≡ cap) ⊎ (t % cap + n + meta_size ≤ cap)
    → (t + n) % cap + meta_size ≤ cap
room_after cap t n c (inl e) = rw (lap-mod cap t n e) (omega arith)
room_after cap t n c (inr l) = rw (mod-add_inside cap t n (omega arith)) (omega arith)

-- An item is written behind the others: the items, and the room, of the new state.
pub append-Tiles :
    {r : Ring} {items : List Item} (it : Item)
    → IsValid r items
    → FitsIn it
    → size it ≤ free_bytes r
    → (r.tail % r.capacity + size it ≡ r.capacity)
      ⊎ (r.tail % r.capacity + size it + meta_size ≤ r.capacity)
    → Tiles
        (store r.buf (r.tail % r.capacity) (item_bytes it))
        r.capacity
        r.head
        (items ++ (it ∷ []))
        (r.tail + size it)
      × ((r.tail + size it) % r.capacity + meta_size ≤ r.capacity)
append-Tiles {r} {items} it v fit room fill = (
  Tiles-concat _ r.capacity r.head items r.tail it (r.tail + size it)
      (Tiles-store r.buf r.capacity r.head items r.tail (size it) (item_bytes it) (omega arith)
        (length-item_bytes it fit) (omega arith) (omega arith) v.tiles)
      (record {
        fits = fit;
        below_end = omega arith;
        stands = Holds-store r.buf (r.tail % r.capacity) (item_bytes it);
      })
      refl,
  room_after r.capacity r.tail (size it) v.cap_min fill,
)

-- A new ring is valid and empty.
pub create-IsValid :
    (n : ℕ) (policy : Policy) (mode : ℕ) (garbage : Mem) {r : Ring}
    → n + 8 < 2 ^ 32
    → create n policy mode garbage ≡ some r
    → IsValid r [] × (n ≤ r.capacity)
unfolding create
create-IsValid n policy mode garbage h e = ground (arith, mod-eq_of_lt {n = 0} {m = align8 n})
