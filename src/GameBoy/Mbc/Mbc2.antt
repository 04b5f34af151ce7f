-- ===== src/GameBoy/Mbc/Mbc2.antt =====
-- The controller with 512 half bytes of its own, kernel/src/gameboy/mbc/mbc2.rs.
pub mod Ram
use gb_os.Base.{ℕ, ◌%◌, bit_and, bit_or, max, Bool, true, false}
use gb_os.Base.{ltb, ◌==◌, in_range, if◌then◌else◌, get_or, set, length, replicate}
use gb_os.GameBoy.Result.{StrResult, ok, err}
use gb_os.GameBoy.Mbc.Header.{Bytes, header_byte, rom_banks}
use gb_os.GameBoy.Mbc.Bank.{rom_index, zero_as_one}

pub record Mbc2 : Type 0 where
  pub rom : Bytes
  pub ram : Bytes
  pub ram_on : Bool
  pub ram_updated : Bool
  pub rombank : ℕ
  pub has_battery : Bool
  pub rombanks : ℕ

unfoldable pub new : Bytes → StrResult Mbc2
new bytes = ok (record {
  rom = bytes;
  ram = replicate 512 0;
  ram_on = false;
  ram_updated = false;
  rombank = 1;
  has_battery = header_byte bytes 0x147 == 0x06;
  rombanks = rom_banks (header_byte bytes 0x148);
})

unfoldable pub readrom : Mbc2 → ℕ → ℕ
unfolding rom_index
readrom m addr = get_or m.rom (rom_index (if ltb addr 0x4000 then 0 else m.rombank) addr) 0xFF

-- `ram[i]` with `i` below 512 is in range: `new` makes 512 cells and every operation keeps them.
unfoldable pub readram : Mbc2 → ℕ → ℕ
readram m addr = if m.ram_on then bit_or (get_or m.ram (bit_and addr 0x1FF) 0) 0xF0 else 0xFF

unfoldable pub writerom : Mbc2 → ℕ → ℕ → Mbc2
unfolding zero_as_one
writerom m addr value =
    if in_range 0x0000 0x3FFF addr
    then (if bit_and addr 0x100 == 0
        then record m { ram_on = bit_and value 0xF == 0xA }
        else record m { rombank = zero_as_one (bit_and value 0x0F) % max m.rombanks 1 })
    else m

unfoldable pub writeram : Mbc2 → ℕ → ℕ → Mbc2
writeram m addr value =
    if m.ram_on
    then record m { ram = set m.ram (bit_and addr 0x1FF) (bit_or value 0xF0); ram_updated = true }
    else m

unfoldable pub is_battery_backed : Mbc2 → Bool
is_battery_backed m = m.has_battery

unfoldable pub loadram : Mbc2 → Bytes → StrResult Mbc2
loadram m ramdata =
    if length ramdata == length m.ram
    then ok (record m { ram = ramdata })
    else err "Loaded RAM has incorrect length"

unfoldable pub dumpram : Mbc2 → Bytes
dumpram m = m.ram

unfoldable pub check_and_reset_ram_updated : Mbc2 → Bool × Mbc2
check_and_reset_ram_updated m = (m.ram_updated, record m { ram_updated = false })
