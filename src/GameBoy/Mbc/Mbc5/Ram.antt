-- ===== src/GameBoy/Mbc/Mbc5/Ram.antt =====
-- Cartridge RAM of the controller with nine bits of ROM bank as memory.
use gb_os.Base.{ℕ, ◌%◌, ◌<◌, ◌≡◌, true, arith, ◌==◌, if◌then◌else◌, get_or-set}
use gb_os.GameBoy.Mbc.Bank.{ram_index, ram_index-lt, ram_index-eq-add}
use gb_os.GameBoy.Mbc.Mbc5.{Mbc5, readram, writeram}
use gb_os.GameBoy.Mbc.Mbc5.Banks.{IsValid}

-- While RAM is on, a write is read back at its offset and changes no other offset of the bank.
mbc5_readram-writeram :
    (m : Mbc5) (a b value : ℕ)
    → IsValid m
    → m.ram_on ≡ true
    → 0 < m.rambanks
    → readram (writeram m a value) b ≡ (if a % 0x2000 == b % 0x2000 then value else readram m b)
unfolding readram writeram
mbc5_readram-writeram m a b value v on banks = ground (
  arith,
  ram_index-lt m.rambank m.rambanks a,
  ram_index-eq-add m.rambank a,
  ram_index-eq-add m.rambank b,
  get_or-set m.ram (ram_index m.rambank a) (ram_index m.rambank b) value 0xFF,
)
