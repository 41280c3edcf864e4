-- ===== src/Queue/Stream.antt =====
-- src/output/sink_queue.c: the swept bytes as a sequence of records and bridges.
use hpulogc.Prelude.{
  ℕ, ◌+◌, ◌^◌, ◌≤◌, ◌<◌, ◌≡◌, refl, ap, List, [], ◌∷◌, ◌++◌, arith, length, length-append, Bytes,
}
use hpulogc.Memory
use hpulogc.Memory.{Mem, word, le_value, load}
use hpulogc.Memory.Regions.{Holds, load-Holds, Holds-append_right}
use hpulogc.Memory.Words.{length-pack}
use hpulogc.Queue.State.{Event, header_size, packed_size, header_fields, payload, packed}
use hpulogc.Queue.Push.{pad_header}
use hpulogc.Queue.Records.{Fits}

-- A record of an event, or the 4 bytes of a bridge.
pub data Item : Type 0 where
  record_of : Event → Item
  bridge : Item

abbrev pub size : Item → ℕ
size (record_of e) = packed_size e
size bridge = 4

abbrev pub item_bytes : Item → Bytes
item_bytes (record_of e) = packed (packed_size e) e
item_bytes bridge = pad_header

abbrev pub stream : List Item → Bytes
stream [] = []
stream (it ∷ items) = item_bytes it ++ stream items

abbrev pub events : List Item → List Event
events [] = []
events (record_of e ∷ items) = e ∷ events items
events (bridge ∷ items) = events items

abbrev pub AllFit : List Item → Type 0
AllFit [] = Unit
AllFit (record_of e ∷ items) = (Fits e × (packed_size e < 2 ^ 32)) × AllFit items
AllFit (bridge ∷ items) = AllFit items

pub length-packed : (need : ℕ) (e : Event) → length (packed need e) ≡ packed_size e
unfolding packed packed_size
length-packed need e = omega (
  arith,
  length-append (Memory.pack (header_fields need e)) (payload e),
  length-pack (header_fields need e),
  length-append e.line (e.msg ++ (e.category ++ (e.file ++ (e.func ++ e.fields_wire)))),
  length-append e.msg (e.category ++ (e.file ++ (e.func ++ e.fields_wire))),
  length-append e.category (e.file ++ (e.func ++ e.fields_wire)),
  length-append e.file (e.func ++ e.fields_wire),
  length-append e.func e.fields_wire,
)

pub length-item_bytes : (it : Item) → length (item_bytes it) ≡ size it
length-item_bytes (record_of e) = length-packed (packed_size e) e
length-item_bytes bridge = refl

pub packed_size_min : (e : Event) → header_size ≤ packed_size e
unfolding packed_size
packed_size_min e = omega arith

-- The items stand from `off` on, up to the end of the sweep.
pub record Stands (mem : Mem) (cap avail off : ℕ) (items : List Item) : Type 0 where
  pub held : Holds mem off (stream items)
  pub ends : off + length (stream items) ≡ avail
  pub below : avail ≤ cap
  pub fits : AllFit items

AllFit-tail : (it : Item) (items : List Item) → AllFit (it ∷ items) → AllFit items
AllFit-tail (record_of e) items f = f.1
AllFit-tail bridge items f = f

pub Stands-tail :
    (mem : Mem) (cap avail off : ℕ) (it : Item) (items : List Item)
    → Stands mem cap avail off (it ∷ items)
    → Stands mem cap avail (off + size it) items
Stands-tail mem cap avail off it items s =
    let n = length-item_bytes it in
    record {
      held = rw n at (Holds-append_right mem off (item_bytes it) (stream items) s.held);
      ends = omega (arith, s.ends, n, length-append (item_bytes it) (stream items));
      below = s.below;
      fits = AllFit-tail it items s.fits;
    }

pub no_events :
    (mem : Mem) (cap avail off : ℕ) (items : List Item)
    → Stands mem cap avail off items
    → avail < off + header_size
    → events items ≡ []
no_events mem cap avail off [] s h = refl
no_events mem cap avail off (record_of e ∷ items) s h = absurd (
    omega (
      arith,
      h,
      s.ends,
      length-packed (packed_size e) e,
      packed_size_min e,
      length-append (packed (packed_size e) e) (stream items),
    ))
no_events mem cap avail off (bridge ∷ items) s h =
    no_events mem cap avail (off + 4) items (Stands-tail mem cap avail off bridge items s)
      (omega (arith, h))

pub bridge_word : (mem : Mem) (off : ℕ) → Holds mem off pad_header → word mem off 4 ≡ 0
unfolding word le_value
bridge_word mem off h = ap le_value (load-Holds mem off pad_header h)
