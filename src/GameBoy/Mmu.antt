-- ===== src/GameBoy/Mmu.antt =====
-- The memory map, kernel/src/gameboy/mmu.rs: its state and reads. `rb` takes `&mut self` in the
-- source and changes nothing.
pub mod Write
pub mod New
pub mod Peek
pub mod Wram
mod Tests
use gb_os.Base.{
  ℕ, zero, suc, ◌+◌, ◌-◌, ◌*◌, ◌%◌, bit_and, bit_or, Bool, true, false, not, ◌&&◌, ◌||◌,
}
use gb_os.Base.{List, [], ◌∷◌, ◌==◌, in_range, if◌then◌else◌, get_or, replicate}
use gb_os.Base.Word.{u8, u16, u32, shl, shr}
use gb_os.GameBoy.Mode.{GbMode, GbSpeed, is_color, is_classic, is_double}
use gb_os.GameBoy.Serial
use gb_os.GameBoy.Serial.{Serial}
use gb_os.GameBoy.Timer
use gb_os.GameBoy.Timer.{Timer}
use gb_os.GameBoy.Keypad
use gb_os.GameBoy.Keypad.{Keypad}
use gb_os.GameBoy.Gpu.{Gpu}
use gb_os.GameBoy.Gpu.Read as GpuRead
use gb_os.GameBoy.Mbc.Cart
use gb_os.GameBoy.Mbc.Cart.{Cart}

abbrev pub wram_size : ℕ
wram_size = 0x8000

abbrev pub zram_size : ℕ
zram_size = 0x7F

pub data DmaType : Type 0 where
  no_dma gdma hdma : DmaType

-- `self.hdma_status == DMAType::NoDMA`, and the same for `HDMA`.
unfoldable pub is_no_dma : DmaType → Bool
is_no_dma DmaType.no_dma = true
is_no_dma _ = false

unfoldable pub is_hdma : DmaType → Bool
is_hdma DmaType.hdma = true
is_hdma _ = false

pub record Mmu : Type 0 where
  pub wram : List ℕ
  pub zram : List ℕ
  pub wrambank : ℕ
  pub hdma : List ℕ
  pub inte : ℕ
  pub intf : ℕ
  pub serial : Serial
  pub timer : Timer
  pub keypad : Keypad
  pub gpu : Gpu
  pub mbc : Cart
  pub gbmode : GbMode
  pub gbspeed : GbSpeed
  pub speed_switch_req : Bool
  pub hdma_src : ℕ
  pub hdma_dst : ℕ
  pub hdma_status : DmaType
  pub hdma_len : ℕ
  pub undocumented_cgb_regs : List ℕ

-- `n` bytes of the generator from `x` on.
unfoldable pub fill_random : ℕ → ℕ → List ℕ
fill_random zero x = []
fill_random (suc n) x =
    let x' = u32 (x * 1103515245 + 12345) in bit_and (shr x' 23) 0xFF ∷ fill_random n x'

unfoldable pub hdma_read : Mmu → ℕ → ℕ
unfolding is_no_dma
hdma_read m a =
    if in_range 0xFF51 0xFF54 a
    then get_or m.hdma (a - 0xFF51) 0
    else if a == 0xFF55
    then bit_or m.hdma_len (if is_no_dma m.hdma_status then 0x80 else 0)
    else 0xFF

-- The work RAM below and above 0xD000, with their echoes.
abbrev pub is_wram0 : ℕ → Bool
is_wram0 a = in_range 0xC000 0xCFFF a || in_range 0xE000 0xEFFF a

abbrev pub is_wram1 : ℕ → Bool
is_wram1 a = in_range 0xD000 0xDFFF a || in_range 0xF000 0xFDFF a

abbrev pub wram1_index : Mmu → ℕ → ℕ
wram1_index m a = bit_or (m.wrambank * 0x1000) (bit_and a 0x0FFF)

-- The addresses that the first two guarded arms of `rb` and of `wb` take from a machine that is
-- not in Color mode, or is in Classic mode.
unfoldable pub is_color_only : ℕ → Bool
is_color_only a =
    a == 0xFF4D || a == 0xFF4F || in_range 0xFF51 0xFF55 a || a == 0xFF6C || a == 0xFF70

unfoldable pub is_undocumented : ℕ → Bool
is_undocumented a = in_range 0xFF72 0xFF73 a || in_range 0xFF75 0xFF77 a

unfoldable pub speed_register : Mmu → ℕ
unfolding is_double
speed_register m =
    bit_or (bit_or 0x7E (if is_double m.gbspeed then 0x80 else 0))
      (if m.speed_switch_req then 1 else 0)

-- The arms of `rb` from 0xFF00 on.
unfoldable pub rb_io : Mmu → ℕ → ℕ
unfolding is_color is_classic is_color_only is_undocumented speed_register
rb_io m a =
    if a == 0xFF00
    then Keypad.rb m.keypad
    else if in_range 0xFF01 0xFF02 a
    then Serial.rb m.serial a
    else if in_range 0xFF04 0xFF07 a
    then Timer.rb m.timer a
    else if a == 0xFF0F
    then bit_or m.intf 0xE0
    else if in_range 0xFF10 0xFF3F a
    then 0xFF
    else if is_color_only a && not (is_color m.gbmode)
    then 0xFF
    else if is_undocumented a && is_classic m.gbmode
    then 0xFF
    else if a == 0xFF4D
    then speed_register m
    else if in_range 0xFF40 0xFF4F a
    then GpuRead.rb m.gpu a
    else if in_range 0xFF51 0xFF55 a
    then hdma_read m a
    else if in_range 0xFF68 0xFF6B a
    then GpuRead.rb m.gpu a
    else if a == 0xFF70
    then u8 m.wrambank
    else if in_range 0xFF72 0xFF73 a
    then get_or m.undocumented_cgb_regs (a - 0xFF72) 0
    else if a == 0xFF75
    then bit_or (get_or m.undocumented_cgb_regs 2 0) 0x8F
    else if in_range 0xFF76 0xFF77 a
    then 0x00
    else if in_range 0xFF80 0xFFFE a
    then get_or m.zram (bit_and a 0x007F) 0
    else if a == 0xFFFF
    then m.inte
    else 0xFF

unfoldable pub rb : Mmu → ℕ → ℕ
rb m a =
    if in_range 0x0000 0x7FFF a
    then Cart.readrom m.mbc a
    else if in_range 0x8000 0x9FFF a
    then GpuRead.rb m.gpu a
    else if in_range 0xA000 0xBFFF a
    then Cart.readram m.mbc a
    else if is_wram0 a
    then get_or m.wram (bit_and a 0x0FFF) 0
    else if is_wram1 a
    then get_or m.wram (wram1_index m a) 0
    else if in_range 0xFE00 0xFE9F a
    then GpuRead.rb m.gpu a
    else rb_io m a

unfoldable pub rw : Mmu → ℕ → ℕ
rw m a = bit_or (rb m a) (shl (rb m (u16 (a + 1))) 8)
