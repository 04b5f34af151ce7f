-- ===== src/GameBoy/Mbc/Mbc2/Ram.antt =====
-- The second controller: its bank register and its 512 half bytes.
use gb_os.Base.{ℕ, ◌%◌, ◌*◌, ◌<◌, ◌≤◌, ◌≡◌, true, some, bit_and, bit_or, arith, max}
use gb_os.Base.{◌==◌, ltb, if◌then◌else◌, length, get_elem?, get_elem?-eq-get_or, get_or-set}
use gb_os.Base.{length-set, length-replicate}
use gb_os.Base.Bits.{and_mask}
use gb_os.GameBoy.Result.{ok}
use gb_os.GameBoy.Mbc.Header.{Bytes}
use gb_os.GameBoy.Mbc.Bank.{rom_index, rom_index-lt}
use gb_os.GameBoy.Mbc.Mbc2.{Mbc2, new, readrom, readram, writerom, writeram, loadram}

pub record IsValid (m : Mbc2) : Type 0 where
  pub ram_size : length m.ram ≡ 512
  pub rombank_in : m.rombank < max m.rombanks 2

pub new-IsValid : (bytes : Bytes) {m : Mbc2} → new bytes ≡ ok m → IsValid m
unfolding new
new-IsValid bytes h = ground (arith, length-replicate {A = ℕ} 512 0)

pub writerom-IsValid : (m : Mbc2) (addr value : ℕ) → IsValid m → IsValid (writerom m addr value)
unfolding writerom
writerom-IsValid m addr value v = ground arith

pub writeram-IsValid : (m : Mbc2) (addr value : ℕ) → IsValid m → IsValid (writeram m addr value)
unfolding writeram
writeram-IsValid m addr value v =
    ground (arith, length-set m.ram (bit_and addr 0x1FF) (bit_or value 0xF0))

pub loadram-IsValid :
    (m : Mbc2) (ramdata : Bytes) {m' : Mbc2} → loadram m ramdata ≡ ok m' → IsValid m → IsValid m'
unfolding loadram
loadram-IsValid m ramdata h v = ground arith

-- Every read of the ROM area of a valid controller takes a byte of the ROM, if the ROM has the
-- two or more banks that its header declares.
pub readrom_in_bounds :
    (m : Mbc2) (addr : ℕ)
    → IsValid m
    → 2 ≤ m.rombanks
    → m.rombanks * 0x4000 ≤ length m.rom
    → (i : ℕ) × (i < length m.rom) × (get_elem? m.rom i ≡ some (readrom m addr))
unfolding readrom
readrom_in_bounds m addr v two size = (i, inside, get_elem?-eq-get_or m.rom i 0xFF inside)
  where
    bank : ℕ
    bank = if ltb addr 0x4000 then 0 else m.rombank

    i : ℕ
    i = rom_index bank addr

    inside : i < length m.rom
    inside = ground (arith, rom_index-lt bank m.rombanks addr)

-- While RAM is on, a write is read back at its offset modulo 512 with the high half set, and
-- changes no other offset.
mbc2_readram-writeram :
    (m : Mbc2) (a b value : ℕ)
    → IsValid m
    → m.ram_on ≡ true
    → readram (writeram m a value) b
      ≡ (if a % 512 == b % 512 then bit_or (bit_or value 0xF0) 0xF0 else readram m b)
unfolding readram writeram
mbc2_readram-writeram m a b value v on =
    ground (
      arith,
      and_mask 9 a,
      and_mask 9 b,
      get_or-set m.ram (a % 512) (b % 512) (bit_or value 0xF0) 0,
    )
