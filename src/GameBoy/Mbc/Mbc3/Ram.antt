-- ===== src/GameBoy/Mbc/Mbc3/Ram.antt =====
-- Cartridge RAM and clock registers of the controller with the clock.
use gb_os.Base.{ℕ, ◌%◌, ◌<◌, ◌≤◌, ◌≡◌, true, false, arith, ◌==◌, if◌then◌else◌}
use gb_os.Base.{get_or-set}
use gb_os.GameBoy.Mbc.Bank.{ram_index, ram_index-lt, ram_index-eq-add}
use gb_os.GameBoy.Mbc.Mbc3.{Mbc3, readram, writerom, writeram}
use gb_os.GameBoy.Mbc.Mbc3.Banks.{IsValid}

-- While RAM is on and a RAM bank is selected, a write is read back at its offset and changes no
-- other offset of the bank.
mbc3_readram-writeram :
    (m : Mbc3) (a b value : ℕ)
    → IsValid m
    → m.ram_on ≡ true
    → m.selectrtc ≡ false
    → m.rambank < m.rambanks
    → readram (writeram m a value) b ≡ (if a % 0x2000 == b % 0x2000 then value else readram m b)
unfolding readram writeram
mbc3_readram-writeram m a b value v on ram bank = ground (
  arith,
  ram_index-lt m.rambank m.rambanks a,
  ram_index-eq-add m.rambank a,
  ram_index-eq-add m.rambank b,
  get_or-set m.ram (ram_index m.rambank a) (ram_index m.rambank b) value 0xFF,
)

-- With RAM on and clock register `0x08 + r` selected, a write shows only once the latch has seen
-- 0 and then 1: before that the latched value is read, after it the written one.
latch_shows_write :
    (m : Mbc3) (a b latch_addr value : ℕ)
    → IsValid m
    → m.ram_on ≡ true
    → m.selectrtc ≡ true
    → m.rambank < 5
    → 0x6000 ≤ latch_addr
    → latch_addr ≤ 0x7FFF
    → (readram (writeram m a value) b ≡ readram m b)
      × (readram (writerom (writerom (writeram m a value) latch_addr 0) latch_addr 1) b ≡ value)
unfolding readram writeram writerom
latch_shows_write m a b latch_addr value v on clock bank lo hi =
    (ground arith, ground (arith, get_or-set m.rtc_ram m.rambank m.rambank value 0))
