-- ===== src/Queue/Collected.antt =====
-- src/output/sink_queue.c, the inner loop of `sq_worker_main`: how a batch is collected.
use hpulogc.Prelude.{
  ℕ, zero, suc, ◌+◌, ◌-◌, ◌≤◌, ◌<◌, ◌≡◌, ◌≢◌, ◌⊎◌, refl, ap, inl, inr, true, false, Bool,
  Bool-cases, ◌||◌, List, [], ◌∷◌, ◌++◌, map, some, arith, ltb, ◌==◌, length, length-append,
}
use hpulogc.Memory.{Mem, word}
use hpulogc.Memory.Regions.{Holds-append_left}
use hpulogc.Fields.Filter.{FilterKey}
use hpulogc.Queue.State.{Event, header_size, packed_size, packed}
use hpulogc.Queue.Push.{pad_header}
use hpulogc.Queue.Worker.{decode, collect}
use hpulogc.Queue.Records.{decode-packed, rec_len-packed}
use hpulogc.Queue.Scratch.{Allocator, Scratch, Pending, filter_into, seen}
use hpulogc.Queue.Handed.{Batch, empty, filter_into-Batch}
use hpulogc.Queue.Stream.{
  Item, record_of, bridge, stream, events, Stands, Stands-tail, no_events, bridge_word,
  length-packed, packed_size_min,
}

-- How a batch is collected from the items: the events `taken`, and what of them the sink reads when the
-- batch is handed out.
pub record Collected (mem : Allocator) (keys : List FilterKey) (sweep : Mem) (cap avail room : ℕ)
    (items : List Item) (sc : Scratch) (out : List Pending × ℕ × Scratch) : Type 0 where
  pub left : List Item
  pub stands : Stands sweep cap avail out.1 left
  pub taken : List Event
  pub split : events items ≡ taken ++ events left
  pub at_most : length taken ≤ room
  pub changes : Bool
  pub handed : Batch keys changes taken (map (seen mem out.2) out.0)
  pub unchanged : changes ≡ false → out.2 ≡ sc
  pub progress : room ≢ 0 → out.0 ≡ [] → events left ≡ []
  pub shorter : (out.0 ≡ []) ⊎ (length left < length items)
  pub no_longer : length left ≤ length items

abbrev add_first : Pending → List Pending × ℕ × Scratch → List Pending × ℕ × Scratch
add_first p (ps, stop, sc) = (p ∷ ps, stop, sc)

module _ (mem : Allocator) (keys : List FilterKey) (cap : ℕ) (sweep : Mem) (avail : ℕ) where
  collect_stop :
      (fuel room off : ℕ) (sc : Scratch)
      → (room == 0 || ltb avail (off + header_size)) ≡ true
      → collect mem (suc fuel) keys cap sweep avail room off sc ≡ ([], off, sc)
  unfolding collect
  collect_stop fuel room off sc h = rw h refl

  collect_bridge :
      (fuel room off : ℕ) (sc : Scratch)
      → (room == 0 || ltb avail (off + header_size)) ≡ false
      → word sweep off 4 ≡ 0
      → collect mem (suc fuel) keys cap sweep avail room off sc
        ≡ collect mem fuel keys cap sweep avail room (off + 4) sc
  unfolding collect
  collect_bridge fuel room off sc h w = rw (h, w) refl

  collect_record :
      (fuel room off : ℕ) (sc : Scratch) (e : Event) (need : ℕ)
      → (room == 0 || ltb avail (off + header_size)) ≡ false
      → word sweep off 4 ≡ need
      → (need == 0) ≡ false
      → decode cap sweep off ≡ some (e, need)
      → collect mem (suc fuel) keys cap sweep avail room off sc
        ≡ add_first (filter_into mem keys e sc).0 (
            collect mem fuel keys cap sweep avail
              (room - 1)
              (off + need)
              (filter_into mem keys e sc).1)
  unfolding collect
  collect_record fuel room off sc e need h w z d = rw (h, w, z, d, collect) refl

  stopped :
      (room off : ℕ) (sc : Scratch) (items : List Item)
      → Stands sweep cap avail off items
      → (room == 0 || ltb avail (off + header_size)) ≡ true
      → Collected mem keys sweep cap avail room items sc ([], off, sc)
  stopped room off sc items s h = record {
    left = items;
    stands = s;
    taken = [];
    split = refl;
    at_most = omega arith;
    changes = false;
    handed = empty;
    unchanged = λ z. refl;
    progress = λ r e. no_events sweep cap avail off items s (ground arith);
    shorter = inl refl;
    no_longer = omega arith;
  }

  after_bridge :
      (room : ℕ) (items : List Item) (sc : Scratch) (out : List Pending × ℕ × Scratch)
      → Collected mem keys sweep cap avail room items sc out
      → Collected mem keys sweep cap avail room (bridge ∷ items) sc out
  after_bridge room items sc out c = record {
    left = c.left;
    stands = c.stands;
    taken = c.taken;
    split = c.split;
    at_most = c.at_most;
    changes = c.changes;
    handed = c.handed;
    unchanged = c.unchanged;
    progress = c.progress;
    shorter = longer c.shorter;
    no_longer = omega (arith, c.no_longer);
  }
    where
      longer :
          (out.0 ≡ []) ⊎ (length c.left < length items)
          → (out.0 ≡ []) ⊎ (length c.left < suc (length items))
      longer (inl e) = inl e
      longer (inr l) = inr (omega (arith, l))

  after_record :
      (room : ℕ) (e : Event) (sc : Scratch) (items : List Item) (out : List Pending × ℕ × Scratch)
      → 0 < room
      → Collected mem keys sweep cap avail (room - 1) items (filter_into mem keys e sc).1 out
      → Collected mem keys sweep cap avail room
          (record_of e ∷ items)
          sc
          (add_first (filter_into mem keys e sc).0 out)
  after_record room e sc items out r c =
      let (b, h, u) =
        filter_into-Batch mem keys e sc out.2 c.changes c.taken (map (seen mem out.2) out.0)
          c.unchanged c.handed in
      record {
        left = c.left;
        stands = c.stands;
        taken = e ∷ c.taken;
        split = ap (◌∷◌ e) c.split;
        at_most = omega (arith, r, c.at_most);
        changes = b;
        handed = h;
        unchanged = u;
        progress = λ r n. absurd (cons_nil n);
        shorter = inr (omega (arith, c.no_longer));
        no_longer = omega (arith, c.no_longer);
      }
    where
      cons_nil : {x : Pending} {xs : List Pending} → x ∷ xs ≢ []
      cons_nil = λ n. cc

  abbrev CollectsFrom : ℕ → Type 0
  CollectsFrom fuel =
      (room off : ℕ) (sc : Scratch) (items : List Item)
      → length items ≤ fuel
      → Stands sweep cap avail off items
      → Collected mem keys sweep cap avail room items sc
          (collect mem fuel keys cap sweep avail room off sc)

  collect_on :
      (fuel : ℕ)
      → CollectsFrom fuel
      → (room off : ℕ) (sc : Scratch) (items : List Item) → length items ≤ suc fuel
      → Stands sweep cap avail off items
      → (room == 0 || ltb avail (off + header_size)) ≡ false
      → Collected mem keys sweep cap avail room items sc
          (collect mem (suc fuel) keys cap sweep avail room off sc)
  collect_on fuel rec room off sc [] n s go = absurd (ground (arith, s.ends))
  collect_on fuel rec room off sc (bridge ∷ items) n s go =
      let w =
        bridge_word sweep off (Holds-append_left sweep off pad_header (stream items) s.held) in
      rw (collect_bridge fuel room off sc go w) (
        after_bridge room items sc _ (
          rec room (off + 4) sc items (omega (arith, n))
            (Stands-tail sweep cap avail off bridge items s)))
  collect_on fuel rec room off sc (record_of e ∷ items) n s go =
      let need = packed_size e in
      let held = Holds-append_left sweep off (packed need e) (stream items) s.held in
      let fit = s.fits.0 in
      let w = rec_len-packed sweep off need e fit.1 fit.0 held in
      let inside : off + need ≤ cap = omega (
        arith,
        s.ends,
        s.below,
        length-packed need e,
        length-append (packed need e) (stream items),
      ) in
      let d = decode-packed sweep off need e fit.1 fit.0 held cap (packed_size_min e) inside in
      let sc' = (filter_into mem keys e sc).1 in
      rw (collect_record fuel room off sc e need go w (ground (arith, packed_size_min e)) d) (
        after_record room e sc items _ (ground arith) (
          rec (room - 1) (off + need) sc' items (omega (arith, n))
            (Stands-tail sweep cap avail off (record_of e) items s)))

  -- The inner loop takes the events in order, as many as there is room for.
  pub collect-Collected :
      (fuel room off : ℕ) (sc : Scratch) (items : List Item)
      → length items ≤ fuel
      → Stands sweep cap avail off items
      → Collected mem keys sweep cap avail room items sc
          (collect mem fuel keys cap sweep avail room off sc)
  unfolding collect
  collect-Collected zero room off sc [] n s = record {
    left = [];
    stands = s;
    taken = [];
    split = refl;
    at_most = omega arith;
    changes = false;
    handed = empty;
    unchanged = λ z. refl;
    progress = λ r e. refl;
    shorter = inl refl;
    no_longer = omega arith;
  }
  collect-Collected zero room off sc (it ∷ items) n s = absurd (omega arith)
  collect-Collected (suc fuel) room off sc items n s =
      elim (Bool-cases (room == 0 || ltb avail (off + header_size))) [
        | inl stop ↦ rw (collect_stop fuel room off sc stop) (stopped room off sc items s stop)
        | inr go ↦ collect_on fuel (collect-Collected fuel) room off sc items n s go
      ]
