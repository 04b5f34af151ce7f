-- ===== src/GameBoy/Mmu/Peek.antt =====
-- Reads for debugging and the overlay, kernel/src/gameboy/mmu.rs.
pub mod Same
use gb_os.Base.{
  ℕ, zero, suc, ◌+◌, ◌-◌, ◌*◌, ◌≤◌, ◌<◌, ◌≡◌, ◌≢◌, ◌⊎◌, inl, inr, refl, bit_and, bit_or, Bool, true,
  false, not, ◌&&◌, ◌||◌,
}
use gb_os.Base.{List, [], ◌∷◌, ◌==◌, in_range, if◌then◌else◌, get_or, length, arith}
use gb_os.Base.Word.{u8, u16, shl}
use gb_os.GameBoy.Mode.{is_color, is_classic}
use gb_os.GameBoy.Serial
use gb_os.GameBoy.Timer
use gb_os.GameBoy.Keypad
use gb_os.GameBoy.Gpu.Read as GpuRead
use gb_os.GameBoy.Mbc.Cart
use gb_os.GameBoy.Mmu.{
  Mmu, hdma_read, is_wram0, is_wram1, wram1_index, is_color_only, is_undocumented, speed_register,
  rb_io, rb,
}

-- The arms of `peek` from 0xFEA0 on.
unfoldable pub peek_io : Mmu → ℕ → ℕ
unfolding is_color is_classic speed_register
peek_io m a =
    if in_range 0xFEA0 0xFEFF a
    then 0xFF
    else if a == 0xFF00
    then Keypad.rb m.keypad
    else if in_range 0xFF01 0xFF02 a
    then Serial.rb m.serial a
    else if a == 0xFF03
    then 0xFF
    else if in_range 0xFF04 0xFF07 a
    then Timer.rb m.timer a
    else if in_range 0xFF08 0xFF0E a
    then 0xFF
    else if a == 0xFF0F
    then bit_or m.intf 0xE0
    else if in_range 0xFF10 0xFF3F a
    then 0xFF
    else if in_range 0xFF40 0xFF45 a
    then GpuRead.rb m.gpu a
    else if a == 0xFF46
    then 0xFF
    else if in_range 0xFF47 0xFF4B a
    then GpuRead.rb m.gpu a
    else if a == 0xFF4C
    then 0xFF
    else if a == 0xFF4D && not (is_color m.gbmode)
    then 0xFF
    else if a == 0xFF4D
    then speed_register m
    else if a == 0xFF4E
    then 0xFF
    else if a == 0xFF4F && not (is_color m.gbmode)
    then 0xFF
    else if a == 0xFF4F
    then GpuRead.rb m.gpu a
    else if a == 0xFF50
    then 0xFF
    else if in_range 0xFF51 0xFF55 a && not (is_color m.gbmode)
    then 0xFF
    else if in_range 0xFF51 0xFF55 a
    then hdma_read m a
    else if in_range 0xFF56 0xFF67 a
    then 0xFF
    else if in_range 0xFF68 0xFF6B a && not (is_color m.gbmode)
    then 0xFF
    else if in_range 0xFF68 0xFF6B a
    then GpuRead.rb m.gpu a
    else if a == 0xFF6C && not (is_color m.gbmode)
    then 0xFF
    else if a == 0xFF6C
    then 0xFF
    else if in_range 0xFF6D 0xFF6F a
    then 0xFF
    else if a == 0xFF70 && not (is_color m.gbmode)
    then 0xFF
    else if a == 0xFF70
    then u8 m.wrambank
    else if a == 0xFF71
    then 0xFF
    else if in_range 0xFF72 0xFF73 a && is_classic m.gbmode
    then 0xFF
    else if in_range 0xFF72 0xFF73 a
    then get_or m.undocumented_cgb_regs (a - 0xFF72) 0
    else if a == 0xFF74
    then 0xFF
    else if a == 0xFF75 && is_classic m.gbmode
    then 0xFF
    else if a == 0xFF75
    then bit_or (get_or m.undocumented_cgb_regs 2 0) 0x8F
    else if in_range 0xFF76 0xFF77 a && is_classic m.gbmode
    then 0xFF
    else if in_range 0xFF76 0xFF77 a
    then 0x00
    else if in_range 0xFF78 0xFF7F a
    then 0xFF
    else if in_range 0xFF80 0xFFFE a
    then get_or m.zram (bit_and a 0x007F) 0
    else m.inte

unfoldable pub peek : Mmu → ℕ → ℕ
peek m a =
    if in_range 0x0000 0x7FFF a
    then Cart.readrom m.mbc a
    else if in_range 0x8000 0x9FFF a
    then GpuRead.rb m.gpu a
    else if in_range 0xA000 0xBFFF a
    then Cart.readram m.mbc a
    else if is_wram0 a
    then get_or m.wram (bit_and a 0x0FFF) 0
    else if is_wram1 a
    then get_or m.wram (wram1_index m a) 0
    else if in_range 0xFE00 0xFE9F a
    then GpuRead.rb m.gpu a
    else peek_io m a

unfoldable pub peek_word : Mmu → ℕ → ℕ
peek_word m a = bit_or (peek m a) (shl (peek m (u16 (a + 1))) 8)

-- `len` bytes from offset `i` on.
unfoldable pub peek_from : Mmu → ℕ → ℕ → ℕ → List ℕ
peek_from m a zero i = []
peek_from m a (suc len) i = peek m (u16 (a + i)) ∷ peek_from m a len (i + 1)

unfoldable pub peek_range : Mmu → ℕ → ℕ → List ℕ
unfolding peek_from
peek_range m a len = peek_from m a len 0
