-- ===== src/GameBoy/Mbc/Mbc1/Ram.antt =====
-- Cartridge RAM of the first controller as memory.
use gb_os.Base.{ℕ, ◌%◌, ◌<◌, ◌≡◌, true, arith, ◌==◌, if◌then◌else◌, get_or-set}
use gb_os.GameBoy.Mbc.Bank.{ram_index, ram_index-lt, ram_index-eq-add}
use gb_os.GameBoy.Mbc.Mbc1.{Mbc1, readram, writeram, active_rambank}
use gb_os.GameBoy.Mbc.Mbc1.Banks.{IsValid}

-- While RAM is on, a write is read back at its offset and changes no other offset of the bank.
mbc1_readram-writeram :
    (m : Mbc1) (a b value : ℕ)
    → IsValid m
    → m.ram_on ≡ true
    → 0 < m.rambanks
    → readram (writeram m a value) b ≡ (if a % 0x2000 == b % 0x2000 then value else readram m b)
unfolding readram writeram active_rambank
mbc1_readram-writeram m a b value v on banks = ground (
  arith,
  ram_index-lt (active_rambank m) m.rambanks a,
  ram_index-eq-add (active_rambank m) a,
  ram_index-eq-add (active_rambank m) b,
  get_or-set m.ram (ram_index (active_rambank m) a) (ram_index (active_rambank m) b) value 0xFF,
)
