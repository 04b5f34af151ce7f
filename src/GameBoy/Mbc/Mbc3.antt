-- ===== src/GameBoy/Mbc/Mbc3.antt =====
-- The controller with the stubbed clock, kernel/src/gameboy/mbc/mbc3.rs.
pub mod Banks
pub mod Ram
use gb_os.Base.{ℕ, ◌*◌, ◌%◌, bit_and, max, Bool, true, false, ◌&&◌, ◌||◌, not}
use gb_os.Base.{ltb, ◌==◌, in_range, if◌then◌else◌, get_or, set, length, replicate}
use gb_os.GameBoy.Result.{StrResult, ok, err}
use gb_os.GameBoy.Mbc.Header.{Bytes, header_byte, ram_banks, rom_banks}
use gb_os.GameBoy.Mbc.Bank.{rom_index, ram_index, zero_as_one}

-- `rtc_ram` and `rtc_ram_latch` are arrays of five bytes.
pub record Mbc3 : Type 0 where
  pub rom : Bytes
  pub ram : Bytes
  pub rombank : ℕ
  pub rambank : ℕ
  pub ram_on : Bool
  pub ram_updated : Bool
  pub has_battery : Bool
  pub rombanks : ℕ
  pub rambanks : ℕ
  pub selectrtc : Bool
  pub rtc_ram : Bytes
  pub rtc_ram_latch : Bytes
  pub rtc_latch : ℕ

-- `matches!(subtype, 0x0F | 0x10 | 0x13)`.
abbrev pub battery_subtype : ℕ → Bool
battery_subtype t = t == 0x0F || t == 0x10 || t == 0x13

-- The subtypes with RAM, `0x10 | 0x12 | 0x13`.
abbrev pub ram_subtype : ℕ → Bool
ram_subtype t = t == 0x10 || t == 0x12 || t == 0x13

unfoldable pub new : Bytes → StrResult Mbc3
new bytes =
    let subtype = header_byte bytes 0x147 in
    let rambanks = if ram_subtype subtype then ram_banks (header_byte bytes 0x149) else 0 in
    let ramsize = 0x2000 * rambanks in
    ok (record {
      rom = bytes;
      ram = replicate ramsize 0;
      rombank = 1;
      rambank = 0;
      ram_on = false;
      ram_updated = false;
      has_battery = battery_subtype subtype;
      rombanks = rom_banks (header_byte bytes 0x148);
      rambanks = rambanks;
      selectrtc = false;
      rtc_ram = replicate 5 0;
      rtc_ram_latch = replicate 5 0;
      rtc_latch = 0xFF;
    })

unfoldable pub latch_rtc_reg : Mbc3 → Mbc3
latch_rtc_reg m = record m { rtc_ram_latch = m.rtc_ram }

unfoldable pub readrom : Mbc3 → ℕ → ℕ
unfolding rom_index
readrom m addr = get_or m.rom (if ltb addr 0x4000 then addr else rom_index m.rombank addr) 0xFF

-- Both clock reads and writes test `rambank < 5` first.
unfoldable pub readram : Mbc3 → ℕ → ℕ
unfolding ram_index
readram m addr =
    if not m.ram_on
    then 0xFF
    else if not m.selectrtc && ltb m.rambank m.rambanks
    then get_or m.ram (ram_index m.rambank addr) 0xFF
    else if m.selectrtc && ltb m.rambank 5
    then get_or m.rtc_ram_latch m.rambank 0
    else 0xFF

unfoldable pub writerom : Mbc3 → ℕ → ℕ → Mbc3
unfolding zero_as_one latch_rtc_reg
writerom m addr value =
    if in_range 0x0000 0x1FFF addr
    then record m { ram_on = bit_and value 0x0F == 0x0A }
    else if in_range 0x2000 0x3FFF addr
    then record m { rombank = zero_as_one (bit_and value 0x7F) % max m.rombanks 1 }
    else if in_range 0x4000 0x5FFF addr
    then record m { selectrtc = bit_and value 0x8 == 0x8; rambank = bit_and value 0x7 }
    else if in_range 0x6000 0x7FFF addr
    then (let latched = if m.rtc_latch == 0 && value == 1 then latch_rtc_reg m else m in
        record latched { rtc_latch = value })
    else m

unfoldable pub writeram : Mbc3 → ℕ → ℕ → Mbc3
unfolding ram_index
writeram m addr value =
    if not m.ram_on
    then m
    else if not m.selectrtc && ltb m.rambank m.rambanks
    then (let idx = ram_index m.rambank addr in
        if ltb idx (length m.ram)
        then record m { ram = set m.ram idx value; ram_updated = true }
        else m)
    else if m.selectrtc && ltb m.rambank 5
    then record m { rtc_ram = set m.rtc_ram m.rambank value }
    else m

unfoldable pub is_battery_backed : Mbc3 → Bool
is_battery_backed m = m.has_battery

unfoldable pub loadram : Mbc3 → Bytes → StrResult Mbc3
loadram m ramdata =
    if length ramdata == length m.ram
    then ok (record m { ram = ramdata })
    else err "Loaded RAM has incorrect length"

unfoldable pub dumpram : Mbc3 → Bytes
dumpram m = m.ram

unfoldable pub check_and_reset_ram_updated : Mbc3 → Bool × Mbc3
check_and_reset_ram_updated m = (m.ram_updated, record m { ram_updated = false })
