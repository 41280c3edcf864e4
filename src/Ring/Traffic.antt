-- ===== src/Ring/Traffic.antt =====
-- src/ring/ringbuf_locked.c as a client sees it: any sequence of calls, against a queue of records.
use hpulogc.Prelude.{
  ℕ, ◌+◌, ◌≤◌, ◌<◌, ◌≡◌, ◌≢◌, refl, sym, ap, ◌∙◌, inl, inr, List, [], ◌∷◌, ◌++◌, arith, length,
}
use mathlib.Core.List.{append-nil, append_assoc}
use hpulogc.Ring.State.{Ring, Msg, View, ok, empty, dropped, Policy, overwrite}
use hpulogc.Ring.Records.{record_len}
use hpulogc.Ring.Calls.{
  PutResult, finished, waiting, put, GetResult, record_got, none_left, asleep, get_now,
}
use hpulogc.Ring.Views.{IsFit, Delivers}
use hpulogc.Memory.{Mem}
use hpulogc.Ring.Layout.{Item, IsValid, entries, Tiles, size, size_pos}
use hpulogc.Ring.Put.{put-PutLeaves}
use hpulogc.Ring.Outcomes.{PutLeaves}
use hpulogc.Ring.Same.{SameRing, put-SameRing}
use hpulogc.Ring.Get.{GetLeaves, get_now-GetLeaves}

-- A client's calls: a put, and a get that does not wait, with its staging buffer's size.
pub data Op : Type 0 where
  send : Msg → Op
  receive : ℕ → Op

-- The accepted records, the views that were handed out, and the ring at the end. A call that
-- waits is given up, and so is one that runs out of rounds.
pub record Seen : Type 0 where
  pub accepted : List Msg
  pub views : List View
  pub last : Ring

abbrev seen_put : Msg → PutResult → (Ring → Seen) → Ring → Seen
seen_put m (finished ok r') next r =
    let s = next r' in record { accepted = m ∷ s.accepted; views = s.views; last = s.last }
seen_put m (finished _ r') next r = next r'
seen_put m (waiting r') next r = next r'
seen_put m PutResult.unfinished next r = next r

abbrev seen_get : GetResult → (Ring → Seen) → Ring → Seen
seen_get (record_got v r') next r =
    let s = next r' in record { accepted = s.accepted; views = v ∷ s.views; last = s.last }
seen_get (none_left r') next r = next r'
seen_get (asleep r') next r = next r'
seen_get GetResult.unfinished next r = next r

-- `fuel` bounds the paddings that one get skips.
unfoldable pub run : ℕ → List Op → Ring → Seen
run fuel [] r = record { accepted = []; views = []; last = r }
run fuel (send m ∷ ops) r = seen_put m (put 4 r m) (run fuel ops) r
run fuel (receive n ∷ ops) r = seen_get (get_now fuel r n 0) (run fuel ops) r

-- Every record of the calls fits, and fits the ring.
abbrev pub AllFit : ℕ → List Op → Type 0
AllFit cap [] = Unit
AllFit cap (send m ∷ ops) = (IsFit m × (record_len m ≤ cap)) × AllFit cap ops
AllFit cap (receive n ∷ ops) = AllFit cap ops

-- The views deliver these records, one by one.
abbrev pub AllDelivered : List View → List Msg → Type 0
AllDelivered [] [] = Unit
AllDelivered (v ∷ vs) (m ∷ ms) = Delivers v m × AllDelivered vs ms
AllDelivered _ _ = ⊥

-- The ring seen as a queue: what was handed out, then what is left, is what was there, then what
-- was accepted.
pub record IsFifo (items : List Item) (s : Seen) : Type 0 where
  pub delivered : List Msg
  pub left : List Item
  pub deliveries : AllDelivered s.views delivered
  pub valid : IsValid s.last left
  pub in_order : entries items ++ s.accepted ≡ delivered ++ entries left

-- What the rest of the calls makes of any ring of this size and this policy.
abbrev Later : ℕ → Policy → (Ring → Seen) → Type 0
Later cap p next =
    (r : Ring) (items : List Item)
    → IsValid r items
    → r.capacity ≡ cap
    → r.policy ≡ p
    → IsFifo items (next r)

IsFifo-entries :
    (items items' : List Item) (s : Seen)
    → entries items' ≡ entries items
    → IsFifo items' s
    → IsFifo items s
IsFifo-entries items items' s e f = record {
  delivered = f.delivered;
  left = f.left;
  deliveries = f.deliveries;
  valid = f.valid;
  in_order = rw (← e) f.in_order;
}

module _ (r : Ring) (items : List Item) (next : Ring → Seen)
    (later : Later r.capacity r.policy next) where
  seen_put-IsFifo :
      (m : Msg) (out : PutResult)
      → r.policy ≢ overwrite
      → PutLeaves r items m out
      → SameRing r out
      → IsFifo items (seen_put m out next r)
  seen_put-IsFifo m (finished ok r') ne (lost, left, its, v, e, f, o, n, p) k =
      let s = later r' its v k.0 k.1 in
      let none : lost ≡ [] = elim p [ inl q ↦ absurd (ne q) | inr q ↦ q ] in
      record {
        delivered = s.delivered;
        left = s.left;
        deliveries = s.deliveries;
        valid = s.valid;
        in_order =
            ap (λ l. l ++ m ∷ (next r').accepted) (e ∙ ap (λ l. l ++ left) none)
            ∙ sym (append_assoc left (m ∷ []) (next r').accepted)
            ∙ ap (λ l. l ++ (next r').accepted) (sym f)
            ∙ s.in_order;
      }
  seen_put-IsFifo m (finished dropped r') ne (its, v, e, o, n, why) k =
      IsFifo-entries items its (next r') e (later r' its v k.0 k.1)
  seen_put-IsFifo m (finished empty r') ne h k = absurd h
  seen_put-IsFifo m (waiting r') ne (its, v, e, o, n, why) k =
      IsFifo-entries items its (next r') e (later r' its v k.0 k.1)
  seen_put-IsFifo m PutResult.unfinished ne h k = absurd h

  seen_get-IsFifo :
      (n : ℕ) (out : GetResult) → GetLeaves r items 0 out → IsFifo items (seen_get out next r)
  seen_get-IsFifo n (record_got view r') (m, its, e, d, v, p, c) =
      let s = later r' its v c p in
      record {
        delivered = m ∷ s.delivered;
        left = s.left;
        deliveries = (d, s.deliveries);
        valid = s.valid;
        in_order = ap (λ l. l ++ (next r').accepted) e ∙ ap (◌∷◌ m) s.in_order;
      }
  seen_get-IsFifo n (none_left r') (e, v, why, p, c) =
      IsFifo-entries items [] (next r') (sym e) (later r' [] v c p)
  seen_get-IsFifo n (asleep r') (e, v, c, t) = absurd (t refl)
  seen_get-IsFifo n GetResult.unfinished h = absurd h

-- Every item is at least a byte.
items_bound :
    (mem : Mem) (cap p : ℕ) (items : List Item) (q : ℕ)
    → Tiles mem cap p items q
    → length items + p ≤ q
items_bound mem cap p [] q t = omega arith
items_bound mem cap p (it ∷ items) q t =
    omega (arith, items_bound mem cap (p + size it) items q t.1, size_pos it t.0.fits)

length-items : (r : Ring) (items : List Item) → IsValid r items → length items ≤ r.capacity
length-items r items v = omega (arith, items_bound r.buf r.capacity r.head items r.tail v.tiles)

-- Any sequence of puts and gets, from a valid ring that is not under the overwrite policy, and of
-- records that fit it: the views that the gets hand out deliver, in order, the records that the
-- ring held at first and then those that the puts accepted, and what has not been handed out is
-- what the ring holds at the end.
pub run-IsFifo :
    (fuel : ℕ) (ops : List Op) (r : Ring) (items : List Item)
    → IsValid r items
    → AllFit r.capacity ops
    → r.policy ≢ overwrite
    → r.capacity < fuel
    → IsFifo items (run fuel ops r)
unfolding run
run-IsFifo fuel [] r items v fit ne f = record {
  delivered = [];
  left = items;
  deliveries = tt;
  valid = v;
  in_order = append-nil (entries items);
}
run-IsFifo fuel (send m ∷ ops) r items v fit ne f =
    seen_put-IsFifo r items (run fuel ops)
      (λ r' its v' c p. run-IsFifo fuel ops r' its v' (rw c fit.1) (λ e. ne (sym p ∙ e)) (rw c f)) m
      (put 4 r m) ne (put-PutLeaves r items m v fit.0.0 fit.0.1) (put-SameRing 4 r m)
run-IsFifo fuel (receive n ∷ ops) r items v fit ne f =
    seen_get-IsFifo r items (run fuel ops)
      (λ r' its v' c p. run-IsFifo fuel ops r' its v' (rw c fit) (λ e. ne (sym p ∙ e)) (rw c f)) n
      (get_now fuel r n 0)
      (get_now-GetLeaves fuel r items n 0 (omega (arith, length-items r items v)) v)
