-- ===== src/GameBoy/Mbc/Mbc5.antt =====
-- The controller with nine bits of ROM bank, kernel/src/gameboy/mbc/mbc5.rs.
pub mod Banks
pub mod Ram
use gb_os.Base.{ℕ, ◌*◌, ◌%◌, bit_and, bit_or, Bool, true, false, ◌||◌, not}
use gb_os.Base.{ltb, ◌==◌, in_range, if◌then◌else◌, get_or, set, length, replicate}
use gb_os.Base.Word.{shl}
use gb_os.GameBoy.Result.{StrResult, ok, err}
use gb_os.GameBoy.Mbc.Header.{Bytes, header_byte, ram_banks, rom_banks}
use gb_os.GameBoy.Mbc.Bank.{rom_index, ram_index}

pub record Mbc5 : Type 0 where
  pub rom : Bytes
  pub ram : Bytes
  pub rombank : ℕ
  pub rambank : ℕ
  pub ram_on : Bool
  pub ram_updated : Bool
  pub has_battery : Bool
  pub rombanks : ℕ
  pub rambanks : ℕ

-- `matches!(subtype, 0x1B | 0x1E)`.
abbrev pub battery_subtype : ℕ → Bool
battery_subtype t = t == 0x1B || t == 0x1E

-- The subtypes with RAM, `0x1A | 0x1B | 0x1D | 0x1E`.
abbrev pub ram_subtype : ℕ → Bool
ram_subtype t = t == 0x1A || t == 0x1B || t == 0x1D || t == 0x1E

unfoldable pub new : Bytes → StrResult Mbc5
new bytes =
    let subtype = header_byte bytes 0x147 in
    let rambanks = if ram_subtype subtype then ram_banks (header_byte bytes 0x149) else 0 in
    let ramsize = 0x2000 * rambanks in
    ok (record {
      rom = bytes;
      ram = replicate ramsize 0;
      rombank = 1;
      rambank = 0;
      ram_on = false;
      ram_updated = false;
      has_battery = battery_subtype subtype;
      rombanks = rom_banks (header_byte bytes 0x148);
      rambanks = rambanks;
    })

-- Past the end of the ROM this controller reads 0, where the others read 0xFF.
unfoldable pub readrom : Mbc5 → ℕ → ℕ
unfolding rom_index
readrom m addr = get_or m.rom (if ltb addr 0x4000 then addr else rom_index m.rombank addr) 0

unfoldable pub readram : Mbc5 → ℕ → ℕ
unfolding ram_index
readram m addr =
    if not m.ram_on || m.rambanks == 0 then 0xFF else get_or m.ram (ram_index m.rambank addr) 0xFF

unfoldable pub writerom : Mbc5 → ℕ → ℕ → Mbc5
writerom m addr value =
    if in_range 0x0000 0x1FFF addr
    then record m { ram_on = bit_and value 0x0F == 0x0A }
    else if in_range 0x2000 0x2FFF addr
    then (if ltb 0 m.rombanks
        then record m { rombank = bit_or (bit_and m.rombank 0x100) value % m.rombanks }
        else m)
    else if in_range 0x3000 0x3FFF addr
    then (if ltb 0 m.rombanks
        then record m {
          rombank = bit_or (bit_and m.rombank 0x0FF) (shl (bit_and value 0x1) 8) % m.rombanks;
        }
        else m)
    else if in_range 0x4000 0x5FFF addr
    then (if ltb 0 m.rambanks then record m { rambank = bit_and value 0x0F % m.rambanks } else m)
    else m

unfoldable pub writeram : Mbc5 → ℕ → ℕ → Mbc5
unfolding ram_index
writeram m addr value =
    if not m.ram_on || m.rambanks == 0
    then m
    else (let idx = ram_index m.rambank addr in
        if ltb idx (length m.ram)
        then record m { ram = set m.ram idx value; ram_updated = true }
        else m)

unfoldable pub is_battery_backed : Mbc5 → Bool
is_battery_backed m = m.has_battery

unfoldable pub loadram : Mbc5 → Bytes → StrResult Mbc5
loadram m ramdata =
    if length ramdata == length m.ram
    then ok (record m { ram = ramdata })
    else err "Loaded RAM has incorrect length"

unfoldable pub dumpram : Mbc5 → Bytes
dumpram m = m.ram

unfoldable pub check_and_reset_ram_updated : Mbc5 → Bool × Mbc5
check_and_reset_ram_updated m = (m.ram_updated, record m { ram_updated = false })
