-- ===== src/GameBoy/Mbc/Mbc1.antt =====
-- The first controller, kernel/src/gameboy/mbc/mbc1.rs.
pub mod Banks
pub mod Ram
use gb_os.Base.{ℕ, ◌*◌, ◌%◌, bit_and, bit_or, max, Bool, true, false, ◌||◌, not}
use gb_os.Base.{ltb, ◌==◌, in_range, if◌then◌else◌, get_or, set, length, replicate}
use gb_os.Base.Word.{shl, shr}
use gb_os.GameBoy.Result.{StrResult, ok, err}
use gb_os.GameBoy.Mbc.Header.{Bytes, header_byte, ram_banks, rom_banks}
use gb_os.GameBoy.Mbc.Bank.{rom_index, ram_index, zero_as_one}

pub record Mbc1 : Type 0 where
  pub rom : Bytes
  pub ram : Bytes
  pub ram_on : Bool
  pub ram_updated : Bool
  pub banking_mode : ℕ
  pub rombank : ℕ
  pub rambank : ℕ
  pub has_battery : Bool
  pub rombanks : ℕ
  pub rambanks : ℕ

-- `(has_battery, rambanks)` by the cartridge type.
unfoldable pub features : Bytes → Bool × ℕ
features bytes =
    if header_byte bytes 0x147 == 0x02
    then (false, ram_banks (header_byte bytes 0x149))
    else if header_byte bytes 0x147 == 0x03
    then (true, ram_banks (header_byte bytes 0x149))
    else (false, 0)

unfoldable pub new : Bytes → StrResult Mbc1
new bytes =
    let (has_battery, rambanks) = features bytes in
    let rombanks = rom_banks (header_byte bytes 0x148) in
    let ramsize = rambanks * 0x2000 in
    ok (record {
      rom = bytes;
      ram = replicate ramsize 0;
      ram_on = false;
      ram_updated = false;
      banking_mode = 0;
      rombank = 1;
      rambank = 0;
      has_battery = has_battery;
      rombanks = rombanks;
      rambanks = rambanks;
    })

-- The bank that an address of the ROM area reads from.
unfoldable pub read_bank : Mbc1 → ℕ → ℕ
read_bank m addr =
    if ltb addr 0x4000
    then (if m.banking_mode == 0 then 0 else bit_and m.rombank 0xE0)
    else m.rombank

unfoldable pub readrom : Mbc1 → ℕ → ℕ
unfolding read_bank rom_index
readrom m addr = get_or m.rom (rom_index (read_bank m addr) addr) 0xFF

-- The RAM bank in use: only banking mode 1 selects one.
unfoldable pub active_rambank : Mbc1 → ℕ
active_rambank m = if m.banking_mode == 1 then m.rambank else 0

unfoldable pub readram : Mbc1 → ℕ → ℕ
unfolding active_rambank ram_index
readram m addr =
    if not m.ram_on || m.rambanks == 0
    then 0xFF
    else get_or m.ram (ram_index (active_rambank m) addr) 0xFF

unfoldable pub writerom : Mbc1 → ℕ → ℕ → Mbc1
unfolding zero_as_one
writerom m addr value =
    if in_range 0x0000 0x1FFF addr
    then record m { ram_on = bit_and value 0xF == 0xA }
    else if in_range 0x2000 0x3FFF addr
    then (let lower_bits = zero_as_one (bit_and value 0x1F) in
        record m { rombank = bit_or (bit_and m.rombank 0x60) lower_bits % max m.rombanks 1 })
    else if in_range 0x4000 0x5FFF addr
    then (let upper_bits = bit_and value 0x03 % max (shr m.rombanks 5) 1 in
        record m {
          rombank =
              (if ltb 0x20 m.rombanks
                then bit_or (bit_and m.rombank 0x1F) (shl upper_bits 5)
                else m.rombank);
          rambank = (if ltb 1 m.rambanks then bit_and value 0x03 else m.rambank);
        })
    else if in_range 0x6000 0x7FFF addr
    then record m { banking_mode = bit_and value 0x01 }
    else m

unfoldable pub writeram : Mbc1 → ℕ → ℕ → Mbc1
unfolding active_rambank ram_index
writeram m addr value =
    if not m.ram_on || m.rambanks == 0
    then m
    else (let idx = ram_index (active_rambank m) addr in
        if ltb idx (length m.ram)
        then record m { ram = set m.ram idx value; ram_updated = true }
        else m)

unfoldable pub is_battery_backed : Mbc1 → Bool
is_battery_backed m = m.has_battery

unfoldable pub loadram : Mbc1 → Bytes → StrResult Mbc1
loadram m ramdata =
    if length ramdata == length m.ram
    then ok (record m { ram = ramdata })
    else err "Loaded RAM has incorrect length"

unfoldable pub dumpram : Mbc1 → Bytes
dumpram m = m.ram

unfoldable pub check_and_reset_ram_updated : Mbc1 → Bool × Mbc1
check_and_reset_ram_updated m = (m.ram_updated, record m { ram_updated = false })
