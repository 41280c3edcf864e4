-- ===== src/Ring/Writes.antt =====
-- src/ring/ringbuf_locked.c, `write_record` and `write_pad` as `hpu_ring_put` calls them.
use hpulogc.Prelude.{
  ℕ, ◌+◌, ◌-◌, ◌%◌, ◌^◌, ◌≤◌, ◌<◌, ◌≡◌, Bool-cases, inl, inr, ◌⊎◌, List, [], ◌∷◌, ◌++◌, ltb, ltb→lt,
  ltb→le, arith,
}
use hpulogc.Ring.State.{Ring, Msg, meta_size}
use hpulogc.Ring.Records.{free_bytes, contig_bytes, record_len, write_record, write_pad}
use hpulogc.Ring.Calls.{total_len}
use hpulogc.Ring.Views.{IsFit, record_len_bounds}
use hpulogc.Memory.Regions.{lap-mod}
use hpulogc.Ring.Layout.{Item, entry, pad, IsValid, append-Tiles, extension_fits}

-- Writing the padding: the tail comes to the start of the buffer, and the items before it stay.
pub write_pad-IsValid :
    (r : Ring) (items : List Item)
    → IsValid r items
    → contig_bytes r ≤ free_bytes r
    → IsValid (write_pad r) (items ++ (pad (contig_bytes r) ∷ []))
      × ((write_pad r).tail % r.capacity ≡ 0)
unfolding write_pad
write_pad-IsValid r items v room =
    let n = contig_bytes r in
    let e : n % 2 ^ 32 ≡ n = omega arith in
    let t = append-Tiles (pad n) v (omega arith) room (inl (omega arith)) in
    (
      record {
        cap_min = v.cap_min;
        cap_max = v.cap_max;
        head-le-tail = omega arith;
        within = omega arith;
        room_for_pad = rw e t.1;
        tiles = rw e t.0;
      },
      rw e (lap-mod r.capacity r.tail n (omega arith)),
    )

-- The length that a record takes: its own, or all that is left up to the end of the buffer.
total_len_bounds :
    (r : Ring) (items : List Item) (need : ℕ)
    → IsValid r items
    → need ≤ contig_bytes r
    → need ≤ free_bytes r
    → (need ≤ total_len r need)
      × (total_len r need ≤ free_bytes r)
      × ((r.tail % r.capacity + total_len r need ≡ r.capacity)
          ⊎ (r.tail % r.capacity + total_len r need + meta_size ≤ r.capacity))
total_len_bounds r items need v below room = elim (Bool-cases (ltb (contig_bytes r - need) 56)) [
  | inl short ↦ rw short (
      let s : contig_bytes r - need < 56 = ltb→lt (contig_bytes r - need) 56 short in
      let x = extension_fits need v room (omega arith) below in
      (omega arith, omega arith, inl (omega arith)))
  | inr roomy ↦ rw roomy (
      let s : 56 ≤ contig_bytes r - need = ltb→le (contig_bytes r - need) 56 roomy in
      (omega arith, room, inr (omega arith)))
]

-- Writing the record.
pub write_record-IsValid :
    (r : Ring) (items : List Item) (m : Msg)
    → IsValid r items
    → IsFit m
    → record_len m ≤ contig_bytes r
    → record_len m ≤ free_bytes r
    → IsValid
        (write_record r m (total_len r (record_len m)))
        (items ++ (entry m (total_len r (record_len m)) ∷ []))
unfolding write_record
write_record-IsValid r items m v fit below room =
    let need = record_len m in
    let b = total_len_bounds r items need v below room in
    let t =
      append-Tiles (entry m (total_len r need)) v
        (fit, omega (arith, (record_len_bounds m fit).0, b.0)) b.1 b.2 in
    record {
      cap_min = v.cap_min;
      cap_max = v.cap_max;
      head-le-tail = omega arith;
      within = omega (arith, b.1);
      room_for_pad = t.1;
      tiles = t.0;
    }
