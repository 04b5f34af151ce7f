-- ===== src/GameBoy/Mbc/Bank.antt =====
-- Bank arithmetic that the controllers share: a bank number above an offset.
use gb_os.Base.{ℕ, ◌+◌, ◌*◌, ◌%◌, ◌<◌, ◌≡◌, ◌≢◌, bit_and, bit_or, arith}
use gb_os.Base.{◌==◌, if◌then◌else◌}
use gb_os.Base.Bits.{and_mask, or_fields}

-- `bank * 0x4000 | ((addr as usize) & 0x3FFF)`.
unfoldable pub rom_index : ℕ → ℕ → ℕ
rom_index bank addr = bit_or (bank * 0x4000) (bit_and addr 0x3FFF)

-- `rambank * 0x2000 | ((addr as usize) & 0x1FFF)`.
unfoldable pub ram_index : ℕ → ℕ → ℕ
ram_index bank addr = bit_or (bank * 0x2000) (bit_and addr 0x1FFF)

-- `match n { 0 => 1, n => n }`.
unfoldable pub zero_as_one : ℕ → ℕ
zero_as_one n = if n == 0 then 1 else n

pub rom_index-eq-add : (bank addr : ℕ) → rom_index bank addr ≡ bank * 0x4000 + addr % 0x4000
unfolding rom_index
rom_index-eq-add bank addr = ground (arith, and_mask 14 addr, or_fields 14 bank (addr % 0x4000))

pub ram_index-eq-add : (bank addr : ℕ) → ram_index bank addr ≡ bank * 0x2000 + addr % 0x2000
unfolding ram_index
ram_index-eq-add bank addr = ground (arith, and_mask 13 addr, or_fields 13 bank (addr % 0x2000))

-- A bank below the count gives an index inside the memory of that many banks.
pub rom_index-lt : (bank banks addr : ℕ) → bank < banks → rom_index bank addr < banks * 0x4000
rom_index-lt bank banks addr h = omega (arith, rom_index-eq-add bank addr)

pub ram_index-lt : (bank banks addr : ℕ) → bank < banks → ram_index bank addr < banks * 0x2000
ram_index-lt bank banks addr h = omega (arith, ram_index-eq-add bank addr)

-- Two offsets of one bank share a cell only where they agree modulo the bank's size.
pub ram_index-ne : (bank a b : ℕ) → a % 0x2000 ≢ b % 0x2000 → ram_index bank a ≢ ram_index bank b
ram_index-ne bank a b h = omega (arith, ram_index-eq-add bank a, ram_index-eq-add bank b)

pub zero_as_one-pos : (n : ℕ) → 0 < zero_as_one n
unfolding zero_as_one
zero_as_one-pos n = ground arith
