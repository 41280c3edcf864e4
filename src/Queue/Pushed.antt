-- ===== src/Queue/Pushed.antt =====
-- src/output/sink_queue.c, `hpu_sink_queue_push`: what each result leaves of the queued
-- events.
use mathlib.Core.Path.{subst}
use mathlib.Core.List.{append-nil}
use hpulogc.Prelude.{
  ◌+◌, ◌-◌, ◌%◌, ◌^◌, ◌<◌, ◌≡◌, refl, sym, ap, ◌∙◌, inl, inr, Bool, true, false, Bool-cases, List,
  [], ◌∷◌, ◌++◌, arith, if◌then◌else◌, leb, ltb,
}
use hpulogc.Queue.State.{Event, Queue, packed_size}
use hpulogc.Queue.Push.{Pushed, queued, full, refused, used, contig, write_bridge, place, push}
use hpulogc.Queue.Records.{Fits}
use hpulogc.Queue.Stream.{Item, record_of, bridge, events}
use hpulogc.Queue.Layout.{IsValid, events-append, append_item-IsValid}

-- What a push leaves, by its result; no result changes the capacity or the stop flag.
abbrev pub PushLeaves : Queue → List Item → Event → Pushed → Type 0
PushLeaves q items e (queued q') =
    (items' : List Item) × IsValid q' items'
    × (events items' ≡ events items ++ e ∷ [])
    × (q'.stop ≡ q.stop)
PushLeaves q items e (full q') =
    (items' : List Item) × IsValid q' items' × (events items' ≡ events items) × (q'.stop ≡ q.stop)
PushLeaves q items e (refused q') = (q' ≡ q) × (q.stop ≡ true)

place-PushLeaves :
    (q : Queue) (items : List Item) (e : Event)
    → IsValid q items
    → Fits e
    → packed_size e < 2 ^ 32
    → PushLeaves q items e (place q e (packed_size e))
unfolding place
place-PushLeaves q items e v f n = elim (Bool-cases (ltb (q.cap - used q) (packed_size e))) [
  | inl no_room ↦ rw no_room (items, v, refl, refl)
  | inr room ↦ elim (Bool-cases (ltb q.cap (q.tail % q.cap + packed_size e))) [
    | inl across ↦ rw (room, across) (items, v, refl, refl)
    | inr below ↦
        rw (room, below)
          (
            items ++ record_of e ∷ [],
            append_item-IsValid q items (record_of e) v (f, n) (ground arith) (ground arith),
            events-append items (record_of e ∷ []),
            refl,
          )
  ]
]

-- With a bridge before it, which is no event.
bridged :
    (q : Queue) (items : List Item) (e : Event) (p : Pushed)
    → PushLeaves (write_bridge q) (items ++ bridge ∷ []) e p
    → q.stop ≡ false
    → PushLeaves q items e p
bridged q items e (queued q') (items', v, h, s) k =
    (items', v, h ∙ ap (λ z. z ++ e ∷ []) (no_event items), s)
  where
    no_event : (xs : List Item) → events (xs ++ bridge ∷ []) ≡ events xs
    no_event xs = events-append xs (bridge ∷ []) ∙ append-nil (events xs)
bridged q items e (full q') (items', v, h, s) k =
    (items', v, h ∙ events-append items (bridge ∷ []) ∙ append-nil (events items), s)
bridged q items e (refused q') (r, s) k = absurd (cc)

-- The call on a queue that is not stopped.
abbrev push_open : Queue → Event → Pushed
push_open q e =
    if ltb (contig q) (packed_size e + 4)
    then (if ltb (q.cap - used q) (contig q)
        then full q
        else if leb 4 (contig q)
        then place (write_bridge q) e (packed_size e)
        else place q e (packed_size e))
    else place q e (packed_size e)

push_by_stop :
    (q : Queue) (e : Event) (b : Bool)
    → q.stop ≡ b
    → push q e ≡ (if b then refused q else push_open q e)
unfolding push
push_by_stop q e b h = ap (λ s. if s then refused q else push_open q e) h

push_open-PushLeaves :
    (q : Queue) (items : List Item) (e : Event)
    → IsValid q items
    → Fits e
    → packed_size e < 2 ^ 32
    → q.stop ≡ false
    → PushLeaves q items e (push_open q e)
push_open-PushLeaves q items e v f n s = elim (Bool-cases (ltb (contig q) (packed_size e + 4))) [
  | inr far ↦ rw far (place-PushLeaves q items e v f n)
  | inl near ↦ elim (Bool-cases (ltb (q.cap - used q) (contig q))) [
    | inl no_pad ↦ rw (near, no_pad) (items, v, refl, refl)
    | inr pad ↦ elim (Bool-cases (leb 4 (contig q))) [
      | inr tiny ↦ rw (near, pad, tiny) (place-PushLeaves q items e v f n)
      | inl four ↦
          rw (near, pad, four)
            (bridged q items e _
              (place-PushLeaves (write_bridge q) (items ++ bridge ∷ []) e
                (append_item-IsValid q items bridge v tt (ground arith) (ground arith)) f n)
              s)
    ]
  ]
]

-- `hpu_sink_queue_push` on a valid queue, of an event that fits the packed header: accepted, the event
-- stands behind the queued events, which stay as they are; refused for want of room, the queued
-- events stay; a stopped queue is left as it was.
pub push-PushLeaves :
    (q : Queue) (items : List Item) (e : Event)
    → IsValid q items
    → Fits e
    → packed_size e < 2 ^ 32
    → PushLeaves q items e (push q e)
push-PushLeaves q items e v f n = elim (Bool-cases q.stop) [
  | inl s ↦ subst (PushLeaves q items e) (sym (push_by_stop q e true s)) (refl, s)
  | inr s ↦
      subst (PushLeaves q items e) (sym (push_by_stop q e false s))
        (push_open-PushLeaves q items e v f n s)
]
