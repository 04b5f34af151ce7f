-- ===== src/Base/Word.antt =====
-- Fixed-width unsigned integers: casts, wrapping arithmetic, complements and shifts.
use Prim.Native.Nat.{ℕ, ◌+◌, ◌-◌, ◌*◌, ◌/◌, ◌%◌, ◌^◌, ◌<◌}

-- `x as u8`, `x as u16`, `x as u32`.
abbrev pub u8 : ℕ → ℕ
u8 n = n % 2 ^ 8

abbrev pub u16 : ℕ → ℕ
u16 n = n % 2 ^ 16

abbrev pub u32 : ℕ → ℕ
u32 n = n % 2 ^ 32

abbrev pub IsU8 : ℕ → Type 0
IsU8 n = n < 2 ^ 8

abbrev pub IsU16 : ℕ → Type 0
IsU16 n = n < 2 ^ 16

-- `!x` at eight bits.
abbrev pub not8 : ℕ → ℕ
not8 n = 255 - n

-- `wrapping_sub` at a width; the modulus is added first, since `-` on ℕ stops at 0.
abbrev pub wrapping_sub8 : ℕ → ℕ → ℕ
wrapping_sub8 a b = (a + 2 ^ 8 - b) % 2 ^ 8

abbrev pub wrapping_sub16 : ℕ → ℕ → ℕ
wrapping_sub16 a b = (a + 2 ^ 16 - b) % 2 ^ 16

-- `x >> k`; a left shift is written with the cast of its width, `u8 (shl x k)`.
abbrev pub shr : ℕ → ℕ → ℕ
shr x k = x / 2 ^ k

abbrev pub shl : ℕ → ℕ → ℕ
shl x k = x * 2 ^ k
