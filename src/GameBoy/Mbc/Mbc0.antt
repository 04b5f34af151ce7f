-- ===== src/GameBoy/Mbc/Mbc0.antt =====
-- A cartridge with no controller, kernel/src/gameboy/mbc/mbc0.rs.
use gb_os.Base.{ℕ, Bool, false, [], get_or}
use gb_os.GameBoy.Result.{StrResult, ok}
use gb_os.GameBoy.Mbc.Header.{Bytes}

pub record Mbc0 : Type 0 where
  pub rom : Bytes

unfoldable pub new : Bytes → StrResult Mbc0
new bytes = ok (record { rom = bytes })

unfoldable pub readrom : Mbc0 → ℕ → ℕ
readrom m addr = get_or m.rom addr 0xFF

unfoldable pub readram : Mbc0 → ℕ → ℕ
readram m addr = 0xFF

unfoldable pub writerom : Mbc0 → ℕ → ℕ → Mbc0
writerom m addr value = m

unfoldable pub writeram : Mbc0 → ℕ → ℕ → Mbc0
writeram m addr value = m

unfoldable pub is_battery_backed : Mbc0 → Bool
is_battery_backed m = false

unfoldable pub loadram : Mbc0 → Bytes → StrResult Mbc0
loadram m ramdata = ok m

unfoldable pub dumpram : Mbc0 → Bytes
dumpram m = []

unfoldable pub check_and_reset_ram_updated : Mbc0 → Bool × Mbc0
check_and_reset_ram_updated m = (false, m)
