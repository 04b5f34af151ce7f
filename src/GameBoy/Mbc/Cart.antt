-- ===== src/GameBoy/Mbc/Cart.antt =====
-- `Box<dyn MBC>` and `get_mbc`, kernel/src/gameboy/mbc/mod.rs: one constructor for each controller,
-- and the trait's methods by dispatch on it.
pub mod Invariant
pub mod Reachable
pub mod Saves
use gb_os.Base.{ℕ, zero, suc, ◌+◌, bit_and, Bool, List, [], ◌∷◌}
use gb_os.Base.{ltb, ◌==◌, in_range, if◌then◌else◌, length}
use gb_os.GameBoy.Result.{StrResult, err, ◌>>◌, map_ok, ok}
use gb_os.GameBoy.Mbc.Header.{Bytes, header_byte, check_checksum}
use gb_os.GameBoy.Mbc.Mbc0
use gb_os.GameBoy.Mbc.Mbc1
use gb_os.GameBoy.Mbc.Mbc2
use gb_os.GameBoy.Mbc.Mbc3
use gb_os.GameBoy.Mbc.Mbc5
use gb_os.GameBoy.Mbc.Mbc0.{Mbc0}
use gb_os.GameBoy.Mbc.Mbc1.{Mbc1}
use gb_os.GameBoy.Mbc.Mbc2.{Mbc2}
use gb_os.GameBoy.Mbc.Mbc3.{Mbc3}
use gb_os.GameBoy.Mbc.Mbc5.{Mbc5}

pub data Cart : Type 0 where
  mbc0 : Mbc0 → Cart
  mbc1 : Mbc1 → Cart
  mbc2 : Mbc2 → Cart
  mbc3 : Mbc3 → Cart
  mbc5 : Mbc5 → Cart

unfoldable pub readrom : Cart → ℕ → ℕ
readrom (mbc0 m) = Mbc0.readrom m
readrom (mbc1 m) = Mbc1.readrom m
readrom (mbc2 m) = Mbc2.readrom m
readrom (mbc3 m) = Mbc3.readrom m
readrom (mbc5 m) = Mbc5.readrom m

unfoldable pub readram : Cart → ℕ → ℕ
readram (mbc0 m) = Mbc0.readram m
readram (mbc1 m) = Mbc1.readram m
readram (mbc2 m) = Mbc2.readram m
readram (mbc3 m) = Mbc3.readram m
readram (mbc5 m) = Mbc5.readram m

unfoldable pub writerom : Cart → ℕ → ℕ → Cart
writerom (mbc0 m) a v = mbc0 (Mbc0.writerom m a v)
writerom (mbc1 m) a v = mbc1 (Mbc1.writerom m a v)
writerom (mbc2 m) a v = mbc2 (Mbc2.writerom m a v)
writerom (mbc3 m) a v = mbc3 (Mbc3.writerom m a v)
writerom (mbc5 m) a v = mbc5 (Mbc5.writerom m a v)

unfoldable pub writeram : Cart → ℕ → ℕ → Cart
writeram (mbc0 m) a v = mbc0 (Mbc0.writeram m a v)
writeram (mbc1 m) a v = mbc1 (Mbc1.writeram m a v)
writeram (mbc2 m) a v = mbc2 (Mbc2.writeram m a v)
writeram (mbc3 m) a v = mbc3 (Mbc3.writeram m a v)
writeram (mbc5 m) a v = mbc5 (Mbc5.writeram m a v)

unfoldable pub check_and_reset_ram_updated : Cart → Bool × Cart
check_and_reset_ram_updated (mbc0 m) =
    let (b, m') = Mbc0.check_and_reset_ram_updated m in (b, mbc0 m')
check_and_reset_ram_updated (mbc1 m) =
    let (b, m') = Mbc1.check_and_reset_ram_updated m in (b, mbc1 m')
check_and_reset_ram_updated (mbc2 m) =
    let (b, m') = Mbc2.check_and_reset_ram_updated m in (b, mbc2 m')
check_and_reset_ram_updated (mbc3 m) =
    let (b, m') = Mbc3.check_and_reset_ram_updated m in (b, mbc3 m')
check_and_reset_ram_updated (mbc5 m) =
    let (b, m') = Mbc5.check_and_reset_ram_updated m in (b, mbc5 m')

unfoldable pub is_battery_backed : Cart → Bool
is_battery_backed (mbc0 m) = Mbc0.is_battery_backed m
is_battery_backed (mbc1 m) = Mbc1.is_battery_backed m
is_battery_backed (mbc2 m) = Mbc2.is_battery_backed m
is_battery_backed (mbc3 m) = Mbc3.is_battery_backed m
is_battery_backed (mbc5 m) = Mbc5.is_battery_backed m

unfoldable pub loadram : Cart → Bytes → StrResult Cart
loadram (mbc0 m) bytes = map_ok mbc0 (Mbc0.loadram m bytes)
loadram (mbc1 m) bytes = map_ok mbc1 (Mbc1.loadram m bytes)
loadram (mbc2 m) bytes = map_ok mbc2 (Mbc2.loadram m bytes)
loadram (mbc3 m) bytes = map_ok mbc3 (Mbc3.loadram m bytes)
loadram (mbc5 m) bytes = map_ok mbc5 (Mbc5.loadram m bytes)

unfoldable pub dumpram : Cart → Bytes
dumpram (mbc0 m) = Mbc0.dumpram m
dumpram (mbc1 m) = Mbc1.dumpram m
dumpram (mbc2 m) = Mbc2.dumpram m
dumpram (mbc3 m) = Mbc3.dumpram m
dumpram (mbc5 m) = Mbc5.dumpram m

-- The title loop of `romname`, from offset `i` with `n` rounds left. A `char` is its code point.
unfoldable pub title_loop : Cart → ℕ → ℕ → List ℕ
title_loop c zero i = []
title_loop c (suc n) i =
    let v = readrom c (0x134 + i) in
    let rest = title_loop c n (i + 1) in if v == 0 then [] else v ∷ rest

-- A Color cartridge keeps a flag in the title's last bytes.
unfoldable pub romname : Cart → List ℕ
unfolding title_loop
romname c = title_loop c (if bit_and (readrom c 0x143) 0x80 == 0x80 then 11 else 16) 0

-- The controller by the type byte at 0x147.
unfoldable pub cart_of_type : Bytes → StrResult Cart
cart_of_type bytes =
    let kind = header_byte bytes 0x147 in
    if kind == 0x00
    then map_ok mbc0 (Mbc0.new bytes)
    else if in_range 0x01 0x03 kind
    then map_ok mbc1 (Mbc1.new bytes)
    else if in_range 0x05 0x06 kind
    then map_ok mbc2 (Mbc2.new bytes)
    else if in_range 0x0F 0x13 kind
    then map_ok mbc3 (Mbc3.new bytes)
    else if in_range 0x19 0x1E kind
    then map_ok mbc5 (Mbc5.new bytes)
    else err "Unsupported MBC type"

unfoldable pub get_mbc : Bytes → Bool → StrResult Cart
unfolding cart_of_type
get_mbc bytes skip_checksum =
    if ltb (length bytes) 0x150
    then err "ROM size too small"
    else (if skip_checksum then ok tt else check_checksum bytes) >> cart_of_type bytes
