-- ===== src/GameBoy/Mbc/Mbc1/Banks.antt =====
-- Bank registers of the first controller stay inside the cartridge.
use gb_os.Base.{ℕ, ◌+◌, ◌*◌, ◌%◌, ◌<◌, ◌≤◌, ◌≡◌, ◌⊎◌, inl, inr, bit_and, bit_or, max, arith}
use gb_os.Base.{
  ◌==◌, Bool-cases, some, get_elem?, get_elem?-eq-get_or, length, length-set, length-replicate,
}
use gb_os.Base.Bits.{and_mask, or_fields, or_comm, and-le}
use gb_os.Base.Word.{shl, shr}
use gb_os.GameBoy.Result.{ok}
use gb_os.GameBoy.Mbc.Header.{Bytes, ram_banks, header_byte}
use gb_os.GameBoy.Mbc.Bank.{rom_index, ram_index, rom_index-lt}
use gb_os.GameBoy.Mbc.Mbc1.{
  Mbc1, features, new, readrom, writerom, writeram, loadram, read_bank, active_rambank,
}

pub record IsValid (m : Mbc1) : Type 0 where
  pub ram_size : length m.ram ≡ m.rambanks * 0x2000
  pub ram_counts : (m.rambanks ≤ 1) ⊎ (4 ≤ m.rambanks)
  pub rambank_in : m.rambank < max m.rambanks 1
  pub rombank_in : m.rombank < max m.rombanks 2

ram_banks_counts : (v : ℕ) → (ram_banks v ≤ 1) ⊎ (4 ≤ ram_banks v)
unfolding ram_banks
ram_banks_counts v = ground arith

features_counts : (bytes : Bytes) → ((features bytes).1 ≤ 1) ⊎ (4 ≤ (features bytes).1)
unfolding features
features_counts bytes = elim (Bool-cases (header_byte bytes 0x147 == 0x02)) [
  | inl two ↦ rw two (ram_banks_counts (header_byte bytes 0x149))
  | inr other ↦ elim (Bool-cases (header_byte bytes 0x147 == 0x03)) [
    | inl three ↦ rw (other, three) (ram_banks_counts (header_byte bytes 0x149))
    | inr neither ↦ rw (other, neither) (inl (omega arith))
  ]
]

pub new-IsValid : (bytes : Bytes) {m : Mbc1} → new bytes ≡ ok m → IsValid m
unfolding new
new-IsValid bytes {m} h =
    ground (arith, features_counts bytes, length-replicate {A = ℕ} ((features bytes).1 * 0x2000) 0)

-- The two low and the five high bits of a bank number, joined.
join_bits : (r upper : ℕ) → bit_or (bit_and r 0x1F) (shl upper 5) ≡ upper * 32 + r % 32
join_bits r upper =
    ground (arith, and_mask 5 r, or_comm (r % 32) (upper * 32), or_fields 5 upper (r % 32))

pub writerom-IsValid : (m : Mbc1) (addr value : ℕ) → IsValid m → IsValid (writerom m addr value)
unfolding writerom
writerom-IsValid m addr value v =
    ground
      (arith, join_bits m.rombank (bit_and value 0x03 % max (shr m.rombanks 5) 1), and_mask 2 value)

pub writeram-IsValid : (m : Mbc1) (addr value : ℕ) → IsValid m → IsValid (writeram m addr value)
unfolding writeram
writeram-IsValid m addr value v =
    ground (arith, length-set m.ram (ram_index (active_rambank m) addr) value)

pub loadram-IsValid :
    (m : Mbc1) (ramdata : Bytes) {m' : Mbc1} → loadram m ramdata ≡ ok m' → IsValid m → IsValid m'
unfolding loadram
loadram-IsValid m ramdata h v = ground arith

read_bank-lt : (m : Mbc1) (addr : ℕ) → IsValid m → 2 ≤ m.rombanks → read_bank m addr < m.rombanks
unfolding read_bank
read_bank-lt m addr v h = ground (arith, and-le m.rombank m.rombank 0xE0)

-- Every read of the ROM area of a valid controller takes a byte of the ROM, and not the value
-- for a missing byte, if the ROM has the two or more banks that its header declares.
pub readrom_in_bounds :
    (m : Mbc1) (addr : ℕ)
    → IsValid m
    → 2 ≤ m.rombanks
    → m.rombanks * 0x4000 ≤ length m.rom
    → (i : ℕ) × (i < length m.rom) × (get_elem? m.rom i ≡ some (readrom m addr))
unfolding readrom
readrom_in_bounds m addr v two size =
    let inside : rom_index (read_bank m addr) addr < length m.rom =
      omega (arith, rom_index-lt (read_bank m addr) m.rombanks addr, read_bank-lt m addr v two) in
    (rom_index (read_bank m addr) addr, inside, get_elem?-eq-get_or m.rom _ 0xFF inside)
