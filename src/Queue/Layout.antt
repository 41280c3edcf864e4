-- ===== src/Queue/Layout.antt =====
-- src/output/sink_queue.c: the bytes in use as a sequence of records and bridges, and what a write
-- behind them keeps.
use hpulogc.Prelude.{
  ℕ, ◌+◌, ◌-◌, ◌%◌, ◌^◌, ◌≤◌, ◌<◌, ◌≡◌, refl, ap, List, [], ◌∷◌, ◌++◌, arith, length, Bytes,
}
use hpulogc.Memory.{Mem, store}
use hpulogc.Memory.Regions.{Holds, Holds-store, Holds-store_other, apart-mod}
use hpulogc.Queue.State.{Queue, packed_size}
use hpulogc.Queue.Push.{used}
use hpulogc.Queue.Records.{Fits}
use hpulogc.Queue.Stream.{Item, record_of, bridge, size, item_bytes, events, length-item_bytes}

abbrev pub FitsIn : Item → Type 0
FitsIn (record_of e) = Fits e × (packed_size e < 2 ^ 32)
FitsIn bridge = Unit

-- An item stands whole below the end of the buffer.
pub record At (mem : Mem) (cap p : ℕ) (it : Item) : Type 0 where
  pub fits : FitsIn it
  pub below_end : p % cap + size it ≤ cap
  pub stands : Holds mem (p % cap) (item_bytes it)

-- The items stand one after the other from position `p` to position `q`.
abbrev pub Tiles : Mem → ℕ → ℕ → List Item → ℕ → Type 0
Tiles mem cap p [] q = p ≡ q
Tiles mem cap p (it ∷ items) q = At mem cap p it × Tiles mem cap (p + size it) items q

-- The state of a queue that holds these items.
pub record IsValid (q : Queue) (items : List Item) : Type 0 where
  pub cap_pos : 0 < q.cap
  pub head-le-tail : q.head ≤ q.tail
  pub within : q.tail ≤ q.head + q.cap
  pub tiles : Tiles q.buf q.cap q.head items q.tail

pub events-append : (xs ys : List Item) → events (xs ++ ys) ≡ events xs ++ events ys
events-append [] ys = refl
events-append (record_of e ∷ xs) ys = ap (◌∷◌ e) (events-append xs ys)
events-append (bridge ∷ xs) ys = events-append xs ys

pub Tiles-le : (mem : Mem) (cap p : ℕ) (items : List Item) (q : ℕ) → Tiles mem cap p items q → p ≤ q
Tiles-le mem cap p [] q t = omega arith
Tiles-le mem cap p (it ∷ items) q t = omega (arith, Tiles-le mem cap (p + size it) items q t.1)

Tiles-concat :
    (mem : Mem) (cap p : ℕ) (items : List Item) (q : ℕ) (it : Item)
    → Tiles mem cap p items q
    → At mem cap q it
    → Tiles mem cap p (items ++ it ∷ []) (q + size it)
Tiles-concat mem cap p [] q it t at = rw t (at, refl)
Tiles-concat mem cap p (x ∷ items) q it t at =
    (t.0, Tiles-concat mem cap (p + size x) items q it t.1 at)

-- What is written into free space behind the tail leaves the items in place.
Tiles-store :
    (mem : Mem) (cap p : ℕ) (items : List Item) (q : ℕ) (bs : Bytes)
    → 0 < cap
    → q + length bs ≤ p + cap
    → q % cap + length bs ≤ cap
    → Tiles mem cap p items q
    → Tiles (store mem (q % cap) bs) cap p items q
Tiles-store mem cap p [] q bs c room below t = t
Tiles-store mem cap p (it ∷ items) q bs c room below t =
    let le = Tiles-le mem cap (p + size it) items q t.1 in
    let apart =
      rw (← length-item_bytes it) at
        (apart-mod cap p (size it) q (length bs) c le room t.0.below_end below) in
    (
      record {
        fits = t.0.fits;
        below_end = t.0.below_end;
        stands = Holds-store_other mem (q % cap) bs (p % cap) (item_bytes it) apart t.0.stands;
      },
      Tiles-store mem cap (p + size it) items q bs c (omega (arith, room)) below t.1,
    )

-- The queue with an item written at its tail.
abbrev pub append_item : Queue → Item → Queue
append_item q it = record q {
  buf = store q.buf (q.tail % q.cap) (item_bytes it);
  tail = q.tail + size it;
}

-- An item that fits in what is free, and below the end of the buffer, is written behind the others.
pub append_item-IsValid :
    (q : Queue) (items : List Item) (it : Item)
    → IsValid q items
    → FitsIn it
    → size it ≤ q.cap - used q
    → q.tail % q.cap + size it ≤ q.cap
    → IsValid (append_item q it) (items ++ it ∷ [])
append_item-IsValid q items it v fit room below =
    let n = length-item_bytes it in
    let kept =
      Tiles-store q.buf q.cap q.head items q.tail (item_bytes it) v.cap_pos
        (omega (arith, n, v.within, v.head-le-tail)) (omega (arith, n)) v.tiles in
    record {
      cap_pos = v.cap_pos;
      head-le-tail = omega (arith, v.head-le-tail);
      within = omega (arith, v.within, v.head-le-tail);
      tiles = Tiles-concat _ q.cap q.head items q.tail it kept (record {
        fits = fit;
        below_end = below;
        stands = Holds-store q.buf (q.tail % q.cap) (item_bytes it);
      });
    }
