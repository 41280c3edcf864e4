-- ===== src/Prelude/Int.antt =====
-- C's signed integers as values: `negsuc n` is -(n + 1).
use Prim.Native.Nat.{ℕ, ◌-◌, ◌%◌, ◌^◌, ◌<◌}
use mathlib.Core.Path.{◌≡◌}
use native.Mathlib.Omega.{arith}
use hpulogc.Prelude.Tests.{if◌then◌else◌, ltb}

pub data ℤ : Type 0 where
  pos : ℕ → ℤ
  negsuc : ℕ → ℤ

-- The low byte of an `int`, and an `int8_t` read back from a byte.
abbrev pub low_byte : ℤ → ℕ
low_byte (pos n) = n % 256
low_byte (negsuc n) = 255 - n % 256

abbrev pub signed_byte : ℕ → ℤ
signed_byte b = if ltb b 128 then pos b else negsuc (255 - b)

-- The low 16 bits, with a negative number taken for 0.
abbrev pub clipped_u16 : ℤ → ℕ
clipped_u16 (pos n) = n % 2 ^ 16
clipped_u16 (negsuc n) = 0

-- The value fits an `int8_t`.
abbrev pub IsInt8 : ℤ → Type 0
IsInt8 (pos n) = n < 128
IsInt8 (negsuc n) = n < 128

pub signed_byte-low_byte : (i : ℤ) → IsInt8 i → signed_byte (low_byte i) ≡ i
signed_byte-low_byte (pos n) h = ground arith
signed_byte-low_byte (negsuc n) h = ground arith
