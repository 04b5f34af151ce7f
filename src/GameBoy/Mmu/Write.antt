-- ===== src/GameBoy/Mmu/Write.antt =====
-- Writes of the memory map, kernel/src/gameboy/mmu.rs. `wb` and `oamdma` call one another in the
-- source; here `wb` is built on `wb_direct`, its arms but the one at 0xFF46, because `oamdma` writes
-- to 0xFE00 to 0xFE9F only.
pub mod Copied
pub mod Cycle
pub mod Transfers
use gb_os.Base.{
  ℕ, zero, suc, ◌+◌, ◌-◌, ◌*◌, ◌%◌, bit_and, bit_or, Bool, true, false, not, ◌&&◌, ◌||◌,
}
use gb_os.Base.{◌==◌, in_range, if◌then◌else◌, get_or, set}
use gb_os.Base.Word.{u8, u16, shl, shr}
use gb_os.GameBoy.Mode.{is_color, is_classic}
use gb_os.GameBoy.Serial
use gb_os.GameBoy.Timer
use gb_os.GameBoy.Keypad
use gb_os.GameBoy.Gpu.Write as GpuWrite
use gb_os.GameBoy.Mbc.Cart
use gb_os.GameBoy.Mmu.{
  Mmu, DmaType, is_hdma, is_wram0, is_wram1, wram1_index, is_color_only, is_undocumented, rb,
}

-- A transfer starts, or one at the line's end is stopped.
unfoldable pub start_dma : Mmu → ℕ → Mmu
unfolding is_hdma
start_dma m v =
    if is_hdma m.hdma_status
    then (if bit_and v 0x80 == 0 then record m { hdma_status = DmaType.no_dma } else m)
    else record m {
      hdma_src = bit_or (shl (get_or m.hdma 0 0) 8) (get_or m.hdma 1 0);
      hdma_dst = bit_or (bit_or (shl (get_or m.hdma 2 0) 8) (get_or m.hdma 3 0)) 0x8000;
      hdma_len = bit_and v 0x7F;
      hdma_status = (if bit_and v 0x80 == 0x80 then DmaType.hdma else DmaType.gdma);
    }

unfoldable pub hdma_write : Mmu → ℕ → ℕ → Mmu
unfolding start_dma
hdma_write m a v =
    if a == 0xFF51
    then record m { hdma = set m.hdma 0 v }
    else if a == 0xFF52
    then record m { hdma = set m.hdma 1 (bit_and v 0xF0) }
    else if a == 0xFF53
    then record m { hdma = set m.hdma 2 (bit_and v 0x1F) }
    else if a == 0xFF54
    then record m { hdma = set m.hdma 3 (bit_and v 0xF0) }
    else if a == 0xFF55
    then start_dma m v
    else m

-- The arms of `wb` from 0xFF00 on.
unfoldable pub wb_io : Mmu → ℕ → ℕ → Mmu
unfolding is_color is_classic is_color_only is_undocumented hdma_write
wb_io m a v =
    if a == 0xFF00
    then record m { keypad = Keypad.wb m.keypad v }
    else if in_range 0xFF01 0xFF02 a
    then record m { serial = Serial.wb m.serial a v }
    else if in_range 0xFF04 0xFF07 a
    then record m { timer = Timer.wb m.timer a v }
    else if in_range 0xFF10 0xFF3F a
    then m
    else if (is_color_only a || in_range 0xFF76 0xFF77 a) && not (is_color m.gbmode)
    then m
    else if is_undocumented a && is_classic m.gbmode
    then m
    else if a == 0xFF4D
    then (if bit_and v 0x1 == 0x1 then record m { speed_switch_req = true } else m)
    else if in_range 0xFF40 0xFF4F a
    then record m { gpu = GpuWrite.wb m.gpu a v }
    else if in_range 0xFF51 0xFF55 a
    then hdma_write m a v
    else if in_range 0xFF68 0xFF6B a
    then record m { gpu = GpuWrite.wb m.gpu a v }
    else if a == 0xFF0F
    then record m { intf = v }
    else if a == 0xFF70
    then (let n = bit_and v 0x7 in record m { wrambank = (if n == 0 then 1 else n) })
    else if in_range 0xFF72 0xFF73 a
    then record m { undocumented_cgb_regs = set m.undocumented_cgb_regs (a - 0xFF72) v }
    else if a == 0xFF75
    then record m { undocumented_cgb_regs = set m.undocumented_cgb_regs 2 v }
    else if in_range 0xFF80 0xFFFE a
    then record m { zram = set m.zram (bit_and a 0x007F) v }
    else if a == 0xFFFF
    then record m { inte = v }
    else m

unfoldable pub wb_direct : Mmu → ℕ → ℕ → Mmu
wb_direct m a v =
    if in_range 0x0000 0x7FFF a
    then record m { mbc = Cart.writerom m.mbc a v }
    else if in_range 0x8000 0x9FFF a
    then record m { gpu = GpuWrite.wb m.gpu a v }
    else if in_range 0xA000 0xBFFF a
    then record m { mbc = Cart.writeram m.mbc a v }
    else if is_wram0 a
    then record m { wram = set m.wram (bit_and a 0x0FFF) v }
    else if is_wram1 a
    then record m { wram = set m.wram (wram1_index m a) v }
    else if in_range 0xFE00 0xFE9F a
    then record m { gpu = GpuWrite.wb m.gpu a v }
    else wb_io m a v

-- `n` rounds of the transfer from offset `i` on.
unfoldable pub oamdma_loop : Mmu → ℕ → ℕ → ℕ → Mmu
oamdma_loop m base zero i = m
oamdma_loop m base (suc n) i =
    oamdma_loop (wb_direct m (0xFE00 + i) (rb m (base + i))) base n (i + 1)

unfoldable pub oamdma : Mmu → ℕ → Mmu
oamdma m v = oamdma_loop m (shl v 8) 0xA0 0

unfoldable pub wb : Mmu → ℕ → ℕ → Mmu
wb m a v = if a == 0xFF46 then oamdma m v else wb_direct m a v

unfoldable pub ww : Mmu → ℕ → ℕ → Mmu
ww m a v = wb (wb m a (bit_and v 0xFF)) (u16 (a + 1)) (shr v 8)
