-- ===== src/Memory.antt =====
-- Byte memory, as the ring of src/ring/ringbuf_locked.c and the queue of src/output/sink_queue.c use it:
-- `memcpy` into and out of a buffer, and fixed-width words in little-endian order.
pub mod Words
pub mod Regions
use hpulogc.Prelude.{
  ℕ, zero, suc, ◌+◌, ◌-◌, ◌*◌, ◌/◌, ◌%◌, Bool, ◌&&◌, List, [], ◌∷◌, ◌++◌, if◌then◌else◌, leb, ltb,
  length, get_or, Bytes,
}

-- The contents of a buffer, by address.
abbrev pub Mem : Type 0
Mem = ℕ → ℕ

-- `memcpy(buf + pos, bytes, length bytes)`
unfoldable pub store : Mem → ℕ → Bytes → Mem
store m pos bytes a =
    if leb pos a && ltb a (pos + length bytes) then get_or bytes (a - pos) 0 else m a

-- The `n` bytes at `buf + pos`.
unfoldable pub load : Mem → ℕ → ℕ → Bytes
load m pos zero = []
load m pos (suc n) = m pos ∷ load m (pos + 1) n

-- A number in `w` bytes, the lowest first; what does not fit is cut off.
unfoldable pub le_bytes : ℕ → ℕ → Bytes
le_bytes zero x = []
le_bytes (suc w) x = (x % 256) ∷ le_bytes w (x / 256)

unfoldable pub le_value : Bytes → ℕ
le_value [] = 0
le_value (b ∷ bs) = b + 256 * le_value bs

-- The `w`-byte word at `buf + pos`.
unfoldable pub word : Mem → ℕ → ℕ → ℕ
unfolding load le_value
word m pos w = le_value (load m pos w)

-- A structure without holes: its fields, each with its width.
unfoldable pub pack : List (ℕ × ℕ) → Bytes
unfolding le_bytes
pack [] = []
pack ((w, x) ∷ fields) = le_bytes w x ++ pack fields

-- The words of a structure at `buf + pos`, for its fields' widths.
unfoldable pub unpack : Mem → ℕ → List ℕ → List ℕ
unfolding word
unpack m pos [] = []
unpack m pos (w ∷ ws) = word m pos w ∷ unpack m (pos + w) ws
