-- ===== src/GameBoy/Mbc/Mbc3/Banks.antt =====
-- Bank registers of the controller with the clock stay inside the cartridge.
use gb_os.Base.{ℕ, ◌*◌, ◌<◌, ◌≤◌, ◌≡◌, some, arith, max}
use gb_os.Base.{ltb, if◌then◌else◌, length, get_elem?, get_elem?-eq-get_or}
use gb_os.Base.{length-set, length-replicate}
use gb_os.GameBoy.Result.{ok}
use gb_os.GameBoy.Mbc.Header.{Bytes}
use gb_os.GameBoy.Mbc.Bank.{rom_index, ram_index, rom_index-lt}
use gb_os.GameBoy.Mbc.Mbc3.{Mbc3, new, readrom, writerom, writeram, loadram}

pub record IsValid (m : Mbc3) : Type 0 where
  pub ram_size : length m.ram ≡ m.rambanks * 0x2000
  pub rombank_in : m.rombank < max m.rombanks 2
  pub clock_size : length m.rtc_ram ≡ 5
  pub latch_size : length m.rtc_ram_latch ≡ 5

pub new-IsValid : (bytes : Bytes) {m : Mbc3} → new bytes ≡ ok m → IsValid m
unfolding new
new-IsValid bytes {m} h =
    ground (arith, length-replicate {A = ℕ} (0x2000 * m.rambanks) 0, length-replicate {A = ℕ} 5 0)

pub writerom-IsValid : (m : Mbc3) (addr value : ℕ) → IsValid m → IsValid (writerom m addr value)
unfolding writerom
writerom-IsValid m addr value v = ground arith

pub writeram-IsValid : (m : Mbc3) (addr value : ℕ) → IsValid m → IsValid (writeram m addr value)
unfolding writeram
writeram-IsValid m addr value v =
    ground (
      arith,
      length-set m.ram (ram_index m.rambank addr) value,
      length-set m.rtc_ram m.rambank value,
    )

pub loadram-IsValid :
    (m : Mbc3) (ramdata : Bytes) {m' : Mbc3} → loadram m ramdata ≡ ok m' → IsValid m → IsValid m'
unfolding loadram
loadram-IsValid m ramdata h v = ground arith

-- Every read of the ROM area of a valid controller takes a byte of the ROM, if the ROM has the
-- two or more banks that its header declares.
pub readrom_in_bounds :
    (m : Mbc3) (addr : ℕ)
    → IsValid m
    → 2 ≤ m.rombanks
    → m.rombanks * 0x4000 ≤ length m.rom
    → (i : ℕ) × (i < length m.rom) × (get_elem? m.rom i ≡ some (readrom m addr))
unfolding readrom
readrom_in_bounds m addr v two size = (i, inside, get_elem?-eq-get_or m.rom i 0xFF inside)
  where
    i : ℕ
    i = if ltb addr 0x4000 then addr else rom_index m.rombank addr

    inside : i < length m.rom
    inside = ground (arith, rom_index-lt m.rombank m.rombanks addr)
