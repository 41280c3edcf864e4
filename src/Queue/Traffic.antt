-- ===== src/Queue/Traffic.antt =====
-- src/output/sink_queue.c as the producers and the sink see it: any sequence of pushes and rounds of the
-- worker, against a queue of events.
use mathlib.Core.List.{append-nil, append_assoc}
use hpulogc.Prelude.{ℕ, ◌^◌, ◌<◌, ◌≡◌, ◌≢◌, sym, ap, ◌∙◌, false, List, [], ◌∷◌, ◌++◌}
use hpulogc.Memory.{Mem}
use hpulogc.Fields.Filter.{FilterKey}
use hpulogc.Queue.State.{Event, Queue, packed_size}
use hpulogc.Queue.Push.{Pushed, queued, full, refused, push}
use hpulogc.Queue.Scratch.{Allocator, Scratch}
use hpulogc.Queue.Handed.{AllHanded, done, AllHanded-append}
use hpulogc.Queue.Worker.{Swept, worker_round}
use hpulogc.Queue.Boundary.{Step, offer, work}
use hpulogc.Queue.Records.{Fits}
use hpulogc.Queue.Stream.{Item, events}
use hpulogc.Queue.Drained.{flat}
use hpulogc.Queue.Layout.{IsValid}
use hpulogc.Queue.Pushed.{PushLeaves, push-PushLeaves}
use hpulogc.Queue.Sweep.{Drains, worker_round-Drains}

-- The events that were accepted, those that the sink was handed, and the queue at the end.
pub record Seen : Type 0 where
  pub taken : List Event
  pub emitted : List Event
  pub last : Queue

abbrev seen_push : Event → Pushed → (Queue → Seen) → Seen
seen_push e (queued q) next =
    let s = next q in record { taken = e ∷ s.taken; emitted = s.emitted; last = s.last }
seen_push e (full q) next = next q
seen_push e (refused q) next = next q

abbrev seen_work : Swept → (Queue → Mem → Scratch → Seen) → Seen
seen_work r next =
    let s = next r.queue r.sweep r.scratch in
    record { taken = s.taken; emitted = flat r.emitted ++ s.emitted; last = s.last }

unfoldable pub run : Allocator → List FilterKey → ℕ → List Step → Queue → Mem → Scratch → Seen
run mem keys batch_max [] q sweep sc = record { taken = []; emitted = []; last = q }
run mem keys batch_max (offer e ∷ steps) q sweep sc =
    seen_push e (push q e) (λ q'. run mem keys batch_max steps q' sweep sc)
run mem keys batch_max (work ∷ steps) q sweep sc =
    seen_work (worker_round mem keys batch_max q sweep sc) (run mem keys batch_max steps)

abbrev pub AllFit : List Step → Type 0
AllFit [] = Unit
AllFit (offer e ∷ steps) = (Fits e × (packed_size e < 2 ^ 32)) × AllFit steps
AllFit (work ∷ steps) = AllFit steps

-- The sink has been handed, in order and once, what was queued and then what was accepted, up to what
-- is queued at the end.
pub record IsFifo (keys : List FilterKey) (batch_max : ℕ) (items : List Item) (s : Seen)
    : Type 0 where
  pub left : List Item
  pub valid : IsValid s.last left
  pub given : List Event
  pub handed : AllHanded keys batch_max given s.emitted
  pub in_order : events items ++ s.taken ≡ given ++ events left

-- What the later steps make of any valid queue.
abbrev Later : List FilterKey → ℕ → (Queue → Seen) → Type 0
Later keys batch_max next =
    (q : Queue) (items : List Item)
    → IsValid q items
    → q.stop ≡ false
    → IsFifo keys batch_max items (next q)

seen_push-IsFifo :
    (keys : List FilterKey) (batch_max : ℕ) (q : Queue) (items : List Item) (e : Event) (p : Pushed)
    (next : Queue → Seen)
    → IsValid q items
    → q.stop ≡ false
    → PushLeaves q items e p
    → Later keys batch_max next
    → IsFifo keys batch_max items (seen_push e p next)
seen_push-IsFifo keys batch_max q items e (queued q') next v s (items', v', h, k) later =
    let f = later q' items' v' (k ∙ s) in
    record {
      left = f.left;
      valid = f.valid;
      given = f.given;
      handed = f.handed;
      in_order =
          sym (append_assoc (events items) (e ∷ []) (next q').taken)
          ∙ ap (λ z. z ++ (next q').taken) (sym h)
          ∙ f.in_order;
    }
seen_push-IsFifo keys batch_max q items e (full q') next v s (items', v', h, k) later =
    let f = later q' items' v' (k ∙ s) in
    record {
      left = f.left;
      valid = f.valid;
      given = f.given;
      handed = f.handed;
      in_order = ap (λ z. z ++ (next q').taken) (sym h) ∙ f.in_order;
    }
seen_push-IsFifo keys batch_max q items e (refused q') next v s (r, k) later = absurd (cc (k, s))

seen_work-IsFifo :
    (keys : List FilterKey) (batch_max : ℕ) (q : Queue) (items : List Item) (r : Swept)
    (next : Queue → Mem → Scratch → Seen)
    → Drains keys batch_max q items r
    → IsFifo keys batch_max [] (next r.queue r.sweep r.scratch)
    → IsFifo keys batch_max items (seen_work r next)
seen_work-IsFifo keys batch_max q items r next d f = record {
  left = f.left;
  valid = f.valid;
  given = events items ++ f.given;
  handed = AllHanded-append d.all f.handed;
  in_order =
      ap (λ z. events items ++ z) f.in_order
      ∙ sym (append_assoc (events items) f.given (events f.left));
}

-- On any sequence of pushes, of events that fit the packed header, and of rounds of the worker, from a
-- valid queue that is not stopped: the sink is handed, in order and once, in batches of at most
-- `batch_max`, the events that were queued and then the events of the pushes that were accepted, up to
-- those that are queued at the end. An event of which the whitelist removes no field is handed over as it
-- was queued; of any other the sink reads the fields that are left, with the region as the scratch
-- buffer, which all events of a batch share, holds it then: its own region if no later event of its
-- batch loses a field.
pub run_refines-IsFifo :
    (mem : Allocator) (keys : List FilterKey) (batch_max : ℕ) (steps : List Step) (q : Queue)
    (items : List Item) (sweep : Mem) (sc : Scratch)
    → IsValid q items
    → q.stop ≡ false
    → AllFit steps
    → batch_max ≢ 0
    → IsFifo keys batch_max items (run mem keys batch_max steps q sweep sc)
unfolding run
run_refines-IsFifo mem keys batch_max [] q items sweep sc v s fit room = record {
  left = items;
  valid = v;
  given = [];
  handed = done;
  in_order = append-nil (events items);
}
run_refines-IsFifo mem keys batch_max (offer e ∷ steps) q items sweep sc v s fit room =
    seen_push-IsFifo keys batch_max q items e (push q e)
      (λ q'. run mem keys batch_max steps q' sweep sc) v s
      (push-PushLeaves q items e v fit.0.0 fit.0.1)
      (λ q' items' v' s'.
        run_refines-IsFifo mem keys batch_max steps q' items' sweep sc v' s' fit.1 room)
run_refines-IsFifo mem keys batch_max (work ∷ steps) q items sweep sc v s fit room =
    let d = worker_round-Drains mem keys batch_max q items sweep sc v s room in
    let r = worker_round mem keys batch_max q sweep sc in
    seen_work-IsFifo keys batch_max q items r (run mem keys batch_max steps) d (
      run_refines-IsFifo mem keys batch_max steps r.queue [] r.sweep r.scratch d.valid
        (d.same_stop ∙ s) fit room)
