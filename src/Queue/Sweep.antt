-- ===== src/Queue/Sweep.antt =====
-- src/output/sink_queue.c, one round of `sq_worker_main`: the sweep, and the bytes of the ring that it
-- takes, also round the end of the buffer.
use hpulogc.Prelude.{
  ℕ, zero, suc, ◌+◌, ◌-◌, ◌%◌, ◌≤◌, ◌<◌, ◌≡◌, ◌≢◌, refl, sym, ap, ap₂, ◌∙◌, inl, inr, false,
  Bool-cases, List, [], ◌∷◌, ◌++◌, arith, ltb, ltb→le, ltb→lt, length, length-append, min, Bytes,
}
use mathlib.Core.Path.{subst}
use native.Mathlib.Nat.{mod-lt}
use hpulogc.Memory.{Mem, store, load}
use hpulogc.Memory.Regions.{load-Holds, Holds-store, mod-add_inside, lap-mod}
use hpulogc.Fields.Filter.{FilterKey}
use hpulogc.Queue.State.{Queue, packed_size}
use hpulogc.Queue.Push.{used}
use hpulogc.Queue.Scratch.{Allocator, Scratch}
use hpulogc.Queue.Handed.{AllHanded}
use hpulogc.Queue.Worker.{batches, swept, Swept, worker_round}
use hpulogc.Queue.Stream.{
  Item, record_of, bridge, size, item_bytes, stream, events, AllFit, Stands, length-item_bytes,
}
use hpulogc.Queue.Drained.{flat, batches-events, items_bound}
use hpulogc.Queue.Layout.{Tiles, Tiles-le, IsValid}

-- The bytes of a circular buffer, from a position on.
unfoldable pub circular : Mem → ℕ → ℕ → ℕ → Bytes
circular mem cap p zero = []
circular mem cap p (suc n) = mem (p % cap) ∷ circular mem cap (p + 1) n

circular-add :
    (mem : Mem) (cap p a b : ℕ)
    → circular mem cap p (a + b) ≡ circular mem cap p a ++ circular mem cap (p + a) b
unfolding circular
circular-add mem cap p zero b =
    let e : 0 + b ≡ b = omega arith in let f : p + 0 ≡ p = omega arith in rw (e, f) refl
circular-add mem cap p (suc a) b =
    let e : suc a + b ≡ suc (a + b) = omega arith in
    let f : p + suc a ≡ p + 1 + a = omega arith in
    rw (e, f) (ap (◌∷◌ (mem (p % cap))) (circular-add mem cap (p + 1) a b))

-- Below the end of the buffer they are a plain load.
circular-load :
    (mem : Mem) (cap p n : ℕ) → p % cap + n ≤ cap → circular mem cap p n ≡ load mem (p % cap) n
unfolding circular load
circular-load mem cap p zero h = refl
circular-load mem cap p (suc zero) h = refl
circular-load mem cap p (suc (suc n)) h =
    let e = mod-add_inside cap p 1 (omega arith) in
    ap (◌∷◌ (mem (p % cap)))
      (circular-load mem cap (p + 1) (suc n) (rw e (omega arith)) ∙ ap (λ a. load mem a (suc n)) e)

circular-Tiles :
    (mem : Mem) (cap p : ℕ) (items : List Item) (q : ℕ)
    → Tiles mem cap p items q
    → circular mem cap p (q - p) ≡ stream items
unfolding circular
circular-Tiles mem cap p [] q t = let e : q - p ≡ 0 = omega (arith, t) in rw e refl
circular-Tiles mem cap p (it ∷ items) q t =
    let le = Tiles-le mem cap (p + size it) items q t.1 in
    let e : q - p ≡ size it + (q - (p + size it)) = omega (arith, le) in
    let here : circular mem cap p (size it) ≡ item_bytes it =
      circular-load mem cap p (size it) t.0.below_end
      ∙ rw (← length-item_bytes it) (load-Holds mem (p % cap) (item_bytes it) t.0.stands) in
    ap (circular mem cap p) e
    ∙ circular-add mem cap p (size it) (q - (p + size it))
    ∙ ap₂ ◌++◌ here (circular-Tiles mem cap (p + size it) items q t.1)

swept-circular :
    (q : Queue) (avail : ℕ)
    → 0 < q.cap
    → avail ≤ q.cap
    → swept q avail ≡ circular q.buf q.cap q.head avail
unfolding swept
swept-circular q avail c h = elim (Bool-cases (ltb q.cap (q.head % q.cap + avail))) [
  | inr straight ↦ rw straight (sym (circular-load q.buf q.cap q.head avail (ltb→le _ _ straight)))
  | inl wraps ↦ rw wraps (
      let begin = q.head % q.cap in
      let first = q.cap - begin in
      let rest = avail - first in
      let over = ltb→lt q.cap (begin + avail) wraps in
      let low : begin < q.cap = mod-lt q.head c in
      let e : avail ≡ first + rest = omega (arith, over, low) in
      let lap = lap-mod q.cap q.head first (omega (arith, low)) in
      sym (
        ap (circular q.buf q.cap q.head) e
        ∙ circular-add q.buf q.cap q.head first rest
        ∙ ap₂ ◌++◌ (circular-load q.buf q.cap q.head first (omega (arith, low))) (
            circular-load q.buf q.cap (q.head + first) rest (rw lap (omega (arith, h)))
            ∙ ap (λ a. load q.buf a rest) lap)))
]

AllFit-Tiles :
    (mem : Mem) (cap p : ℕ) (items : List Item) (q : ℕ) → Tiles mem cap p items q → AllFit items
AllFit-Tiles mem cap p [] q t = tt
AllFit-Tiles mem cap p (record_of e ∷ items) q t =
    (t.0.fits, AllFit-Tiles mem cap (p + packed_size e) items q t.1)
AllFit-Tiles mem cap p (bridge ∷ items) q t = AllFit-Tiles mem cap (p + 4) items q t.1

-- The sweep area holds the items in a row.
swept-Stands :
    (q : Queue) (items : List Item) (sweep0 : Mem)
    → IsValid q items
    → Stands (store sweep0 0 (swept q (used q))) q.cap (used q) 0 items
swept-Stands q items sweep0 v =
    let e : swept q (used q) ≡ stream items =
      swept-circular q (used q) v.cap_pos (omega (arith, v.within, v.head-le-tail))
      ∙ circular-Tiles q.buf q.cap q.head items q.tail v.tiles in
    let n : length (stream items) ≡ used q =
      stream_length q.buf q.cap q.head items q.tail v.tiles in
    record {
      held = rw e (Holds-store sweep0 0 (stream items));
      ends = omega (arith, n);
      below = omega (arith, v.within, v.head-le-tail);
      fits = AllFit-Tiles q.buf q.cap q.head items q.tail v.tiles;
    }
  where
    stream_length :
        (mem : Mem) (cap p : ℕ) (items : List Item) (t : ℕ)
        → Tiles mem cap p items t
        → length (stream items) ≡ t - p
    stream_length mem cap p [] t h = omega (arith, h)
    stream_length mem cap p (it ∷ items) t h = omega (
      arith,
      stream_length mem cap (p + size it) items t h.1,
      length-item_bytes it,
      length-append (item_bytes it) (stream items),
      Tiles-le mem cap (p + size it) items t h.1,
    )

-- A round that does not end the worker.
worker_round-open :
    (mem : Allocator) (keys : List FilterKey) (batch_max : ℕ) (q : Queue) (sweep0 : Mem)
    (sc : Scratch)
    → q.stop ≡ false
    → let avail = min (used q) q.cap in
      let out =
        batches mem avail keys q.cap (store sweep0 0 (swept q avail)) avail batch_max 0 sc in
      worker_round mem keys batch_max q sweep0 sc ≡ record {
        queue = record q { head = q.head + avail };
        sweep = store sweep0 0 (swept q avail);
        scratch = out.1;
        emitted = out.0;
      }
unfolding worker_round
worker_round-open mem keys batch_max q sweep0 sc s = rw s refl

-- What a round of the worker leaves of a valid queue.
pub record Drains (keys : List FilterKey) (batch_max : ℕ) (q : Queue) (items : List Item)
    (s : Swept) : Type 0 where
  pub all : AllHanded keys batch_max (events items) (flat s.emitted)
  pub valid : IsValid s.queue []
  pub same_stop : s.queue.stop ≡ q.stop

-- A round of the worker on a valid queue that is not stopped hands every queued event to the sink, in
-- order and once, in batches of at most `batch_max`, and leaves the queue empty. An event of which the
-- whitelist removes no field is handed over as it was queued; of any other the sink reads the fields that
-- are left, with the region as the scratch buffer, which all events of a batch share, holds it then: its
-- own region if no later event of its batch loses a field.
pub worker_round-Drains :
    (mem : Allocator) (keys : List FilterKey) (batch_max : ℕ) (q : Queue) (items : List Item)
    (sweep0 : Mem) (sc : Scratch)
    → IsValid q items
    → q.stop ≡ false
    → batch_max ≢ 0
    → Drains keys batch_max q items (worker_round mem keys batch_max q sweep0 sc)
worker_round-Drains mem keys batch_max q items sweep0 sc v s room =
    let avail : min (used q) q.cap ≡ used q = omega (arith, v.within, v.head-le-tail) in
    let stands = swept-Stands q items sweep0 v in
    subst (Drains keys batch_max q items) (sym (worker_round-open mem keys batch_max q sweep0 sc s))
      (rw avail (record {
        all =
            batches-events mem keys batch_max q.cap _ (used q) room (used q) 0 sc items
              (omega (arith, stands.ends, items_bound items)) stands;
        valid = record {
          cap_pos = v.cap_pos;
          head-le-tail = omega (arith, v.head-le-tail);
          within = omega (arith, v.within);
          tiles = omega (arith, v.head-le-tail);
        };
        same_stop = refl;
      }))
