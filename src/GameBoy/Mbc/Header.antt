-- ===== src/GameBoy/Mbc/Header.antt =====
-- The cartridge header: bank counts and checksum, kernel/src/gameboy/mbc/mod.rs.
use gb_os.Base.{ℕ, zero, suc, ◌+◌, ◌-◌, List}
use gb_os.Base.{leb, ◌==◌, if◌then◌else◌, get_or}
use gb_os.Base.Word.{shl, wrapping_sub8}
use gb_os.GameBoy.Result.{StrResult, ok, err}

abbrev pub Bytes : Type 0
Bytes = List ℕ

-- `data[i]`. Every caller has tested `data.len() < 0x150` first, and no index here is past 0x14F.
abbrev pub header_byte : Bytes → ℕ → ℕ
header_byte bytes i = get_or bytes i 0

unfoldable pub ram_banks : ℕ → ℕ
ram_banks v =
    if v == 1
    then 1
    else if v == 2
    then 1
    else if v == 3
    then 4
    else if v == 4
    then 16
    else if v == 5
    then 8
    else 0

-- `2 << v` on a 32-bit `usize`; `v` is at most 8 there.
unfoldable pub rom_banks : ℕ → ℕ
rom_banks v = if leb v 8 then shl 2 v else 0

-- `for i in 0x134..0x14D`, from index `i` with `n` rounds left.
unfoldable pub checksum_loop : Bytes → ℕ → ℕ → ℕ → ℕ
checksum_loop bytes zero i value = value
checksum_loop bytes (suc n) i value =
    checksum_loop bytes n (i + 1) (wrapping_sub8 (wrapping_sub8 value (header_byte bytes i)) 1)

unfoldable pub check_checksum : Bytes → StrResult (Unit {0})
check_checksum bytes =
    if header_byte bytes 0x14D == checksum_loop bytes (0x14D - 0x134) 0x134 0
    then ok tt
    else err "Cartridge checksum is invalid"
