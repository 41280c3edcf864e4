-- ===== src/Queue/Boundary.antt =====
-- src/output/sink_queue.c: a push near the end of the buffer, the worker after a stop, and the wait.
use hpulogc.Prelude.{
  ℕ, ◌+◌, ◌-◌, ◌%◌, ◌^◌, ◌≤◌, ◌<◌, ◌≡◌, ◌≢◌, refl, ap, inl, inr, Bool, true, false, Bool-cases,
  List, [], ◌∷◌, arith, if◌then◌else◌, leb, lt→ltb, ◌==◌, min,
}
use hpulogc.Memory.{Mem}
use hpulogc.Memory.Regions.{mod-add_inside}
use hpulogc.Fields.Filter.{FilterKey}
use hpulogc.Queue.State.{Event, Queue, header_size, packed_size}
use hpulogc.Queue.Push.{
  Pushed, queued, full, refused, left_by, used, contig, write_bridge, place, push,
}
use hpulogc.Queue.Scratch.{Allocator, Scratch}
use hpulogc.Queue.Worker.{worker_round, gave_up, wait_until, flush_wait}

packed_size_bound : (e : Event) → header_size ≤ packed_size e
unfolding packed_size
packed_size_bound e = omega arith

abbrev pub is_queued : Pushed → Bool
is_queued (queued q) = true
is_queued (full q) = false
is_queued (refused q) = false

push-full : (q : Queue) (e : Event) → q.stop ≡ false → 0 < q.cap → contig q < 4 → push q e ≡ full q
unfolding push place
push-full q e s c n = let b = packed_size_bound e in rw s (ground (arith, b))

contig_after : (tail cap : ℕ) → 0 < cap → 4 < cap - tail % cap → (tail + 4) % cap ≡ tail % cap + 4
contig_after tail cap c h = mod-add_inside cap tail 4 (omega arith)

place_across :
    (q : Queue) (e : Event)
    → q.cap < q.tail % q.cap + packed_size e
    → is_queued (place q e (packed_size e)) ≡ false
unfolding place
place_across q e h = ground arith

-- A push is never accepted where the record and a bridge do not fit before the end of the buffer, but
-- for exactly the 4 bytes of the bridge: the record is not moved to the start of the buffer, however
-- much of it is free.
pub push_near_end :
    (q : Queue) (e : Event)
    → 0 < q.cap
    → contig q ≢ 4
    → contig q < packed_size e + 4
    → is_queued (push q e) ≡ false
unfolding push
push_near_end q e c n near = elim (Bool-cases q.stop) [
  | inl s ↦ rw s refl
  | inr s ↦ elim (Bool-cases (leb 4 (contig q))) [
    | inl four ↦
        let m = contig_after q.tail q.cap c (ground arith) in
        let full_there : is_queued (place (write_bridge q) e (packed_size e)) ≡ false =
          place_across (write_bridge q) e (rw m (ground arith)) in
        rw (s, lt→ltb (contig q) (packed_size e + 4) near, four) (ground (arith, full_there))
    | inr less ↦ rw (push-full q e s c (ground arith)) refl
  ]
]

-- What befalls a queue: a push by a producer, or a round of the worker.
pub data Step : Type 0 where
  offer : Event → Step
  work : Step

-- Which of the pushes are accepted.
unfoldable pub accepted :
    Allocator → List FilterKey → ℕ → List Step → Queue → Mem → Scratch → List Bool
accepted mem keys batch_max [] q sweep sc = []
accepted mem keys batch_max (offer e ∷ steps) q sweep sc =
    is_queued (push q e) ∷ accepted mem keys batch_max steps (left_by (push q e)) sweep sc
accepted mem keys batch_max (work ∷ steps) q sweep sc =
    let s = worker_round mem keys batch_max q sweep sc in
    accepted mem keys batch_max steps s.queue s.sweep s.scratch

abbrev pub refusals : List Step → List Bool
refusals [] = []
refusals (offer e ∷ steps) = false ∷ refusals steps
refusals (work ∷ steps) = refusals steps

worker_round_keeps :
    (mem : Allocator) (keys : List FilterKey) (batch_max : ℕ) (q : Queue) (sweep : Mem)
    (sc : Scratch)
    → q.stop ≡ false
    → ((worker_round mem keys batch_max q sweep sc).queue.tail ≡ q.tail)
      × ((worker_round mem keys batch_max q sweep sc).queue.cap ≡ q.cap)
      × ((worker_round mem keys batch_max q sweep sc).queue.stop ≡ false)
unfolding worker_round
worker_round_keeps mem keys batch_max q sweep sc s = rw s (refl, refl, refl)

-- A queue of which 1 to 3 bytes are left before the end of the buffer accepts no event again, however
-- the pushes and the rounds of the worker go on, also when it is empty.
pub accepted-refusals :
    (mem : Allocator) (keys : List FilterKey) (batch_max : ℕ) (steps : List Step) (q : Queue)
    (sweep : Mem) (sc : Scratch)
    → q.stop ≡ false
    → 0 < q.cap
    → contig q < 4
    → accepted mem keys batch_max steps q sweep sc ≡ refusals steps
unfolding accepted
accepted-refusals mem keys batch_max [] q sweep sc s c n = refl
accepted-refusals mem keys batch_max (offer e ∷ steps) q sweep sc s c n =
    rw (push-full q e s c n)
      (ap (◌∷◌ false) (accepted-refusals mem keys batch_max steps q sweep sc s c n))
accepted-refusals mem keys batch_max (work ∷ steps) q sweep sc s c n =
    let (t, k, p) = worker_round_keeps mem keys batch_max q sweep sc s in
    let r = worker_round mem keys batch_max q sweep sc in
    accepted-refusals mem keys batch_max steps r.queue r.sweep r.scratch p (rw k c) (rw (t, k) n)

-- The round that a stopped worker makes on a queue that is within its bounds takes out every event
-- that is left and ends the worker, and hands no event to the sink.
pub worker_round_stopped :
    (mem : Allocator) (keys : List FilterKey) (batch_max : ℕ) (q : Queue) (sweep : Mem)
    (sc : Scratch)
    → q.stop ≡ true
    → q.head ≤ q.tail
    → used q ≤ q.cap
    → let s = worker_round mem keys batch_max q sweep sc in
      (s.queue.head ≡ q.tail) × (s.queue.exited ≡ true) × (s.emitted ≡ [])
unfolding worker_round
worker_round_stopped mem keys batch_max q sweep sc s h b =
    let m : min (used q) q.cap ≡ used q = omega arith in
    let e : q.tail ≡ q.head + (q.tail - q.head) = omega arith in rw (s, m) (ground (arith, e))

-- `hpu_sink_queue_flush_wait` with a timeout of 0 gives up at its first look at a queue in use.
pub flush_wait_zero :
    (begun in_use now : ℕ) (looks : List (ℕ × ℕ))
    → 0 < begun
    → begun < 2 ^ 64
    → begun ≤ now
    → 0 < in_use
    → flush_wait begun 0 ((in_use, now) ∷ looks) ≡ gave_up
unfolding flush_wait wait_until
flush_wait_zero begun in_use now looks p b n u = ground arith

-- No look is at or past the deadline.
abbrev pub AllBefore : ℕ → List (ℕ × ℕ) → Type 0
AllBefore deadline [] = Unit
AllBefore deadline ((in_use, now) ∷ looks) = (now < deadline) × AllBefore deadline looks

lt_then_open : (deadline now : ℕ) → now < deadline → leb deadline now ≡ false
lt_then_open deadline now h = ground arith

wait_until-deadline :
    (deadline : ℕ) (looks : List (ℕ × ℕ))
    → AllBefore deadline looks
    → wait_until deadline looks ≢ gave_up
unfolding wait_until
wait_until-deadline deadline [] h = λ e. cc
wait_until-deadline deadline ((in_use, now) ∷ looks) h = elim (Bool-cases (in_use == 0)) [
  | inl z ↦ rw z (λ e. cc)
  | inr u ↦ rw (u, lt_then_open deadline now h.0) (wait_until-deadline deadline looks h.1)
]

-- With a timeout that is not 0, `hpu_sink_queue_flush_wait` does not give up at a look before the timeout has passed.
pub flush_wait_bounded :
    (begun timeout_ms : ℕ) (looks : List (ℕ × ℕ))
    → 0 < timeout_ms
    → begun + timeout_ms < 2 ^ 64
    → AllBefore (begun + timeout_ms) looks
    → flush_wait begun timeout_ms looks ≢ gave_up
unfolding flush_wait
flush_wait_bounded begun timeout_ms looks p b h =
    let t : (begun + (if timeout_ms == 0 then 2 ^ 64 - 1 else timeout_ms)) % 2 ^ 64
        ≡ begun + timeout_ms =
      ground arith in
    rw t (wait_until-deadline (begun + timeout_ms) looks h)
