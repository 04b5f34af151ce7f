-- ===== src/GameBoy/Gpu/Read.antt =====
-- Reads of `GPU`, kernel/src/gameboy/gpu.rs.
use gb_os.Base.{ℕ, ◌+◌, ◌-◌, ◌*◌, bit_and, bit_or, Bool, not, ◌&&◌}
use gb_os.Base.{◌==◌, in_range, if◌then◌else◌, get_or}
use gb_os.Base.Word.{u8, shl, shr}
use gb_os.GameBoy.Mode.{is_color}
use gb_os.GameBoy.Gpu.{Gpu, PaletteRam}

-- `if b { x } else { 0 }`.
abbrev pub bit_if : Bool → ℕ → ℕ
bit_if b x = if b then x else 0

-- A component of a colour: `[palnum][colnum][part]`.
unfoldable pub component : PaletteRam → ℕ → ℕ → ℕ → ℕ
component p palnum colnum part = get_or p.colors (palnum * 12 + colnum * 3 + part) 0

-- The palette and the colour that the index selects.
unfoldable pub palnum : PaletteRam → ℕ
palnum p = shr p.ind 3

unfoldable pub colnum : PaletteRam → ℕ
colnum p = bit_and (shr p.ind 1) 0x3

unfoldable pub palette_index : PaletteRam → ℕ
palette_index p = bit_or (bit_or 0x40 p.ind) (bit_if p.inc 0x80)

unfoldable pub palette_read : PaletteRam → ℕ
unfolding component palnum colnum
palette_read p =
    let red = component p (palnum p) (colnum p) 0 in
    let green = component p (palnum p) (colnum p) 1 in
    let blue = component p (palnum p) (colnum p) 2 in
    if bit_and p.ind 0x01 == 0x00
    then bit_or red (shl (bit_and green 0x07) 5)
    else bit_or (shr (bit_and green 0x18) 3) (u8 (shl blue 2))

unfoldable pub lcdc : Gpu → ℕ
lcdc g =
    bit_or
      (bit_or
        (bit_or
          (bit_or
            (bit_or
              (bit_or (bit_or (bit_if g.lcd_on 0x80) (bit_if (g.win_tilemap == 0x9C00) 0x40))
                (bit_if g.win_on 0x20))
              (bit_if (g.tilebase == 0x8000) 0x10))
            (bit_if (g.bg_tilemap == 0x9C00) 0x08))
          (bit_if (g.sprite_size == 16) 0x04))
        (bit_if g.sprite_on 0x02))
      (bit_if g.lcdc0 0x01)

unfoldable pub stat : Gpu → ℕ
stat g =
    bit_or
      (bit_or
        (bit_or
          (bit_or (bit_or (bit_or 0x80 (bit_if g.lyc_inte 0x40)) (bit_if g.m2_inte 0x20))
            (bit_if g.m1_inte 0x10))
          (bit_if g.m0_inte 0x08))
        (bit_if (g.line == g.lyc) 0x04))
      g.mode

unfoldable pub rb : Gpu → ℕ → ℕ
unfolding lcdc stat palette_index palette_read is_color
rb g a =
    if in_range 0x8000 0x9FFF a
    then get_or g.vram (bit_or (g.vrambank * 0x2000) (bit_and a 0x1FFF)) 0
    else if in_range 0xFE00 0xFE9F a
    then get_or g.voam (a - 0xFE00) 0
    else if a == 0xFF40
    then lcdc g
    else if a == 0xFF41
    then stat g
    else if a == 0xFF42
    then g.scy
    else if a == 0xFF43
    then g.scx
    else if a == 0xFF44
    then g.line
    else if a == 0xFF45
    then g.lyc
    else if a == 0xFF46
    then 0
    else if a == 0xFF47
    then g.palbr
    else if a == 0xFF48
    then g.pal0r
    else if a == 0xFF49
    then g.pal1r
    else if a == 0xFF4A
    then g.winy
    else if a == 0xFF4B
    then g.winx
    else if a == 0xFF4C
    then 0xFF
    else if a == 0xFF4E
    then 0xFF
    else if in_range 0xFF4F 0xFF6B a && not (is_color g.gbmode)
    then 0xFF
    else if a == 0xFF4F
    then bit_or (u8 g.vrambank) 0xFE
    else if a == 0xFF68
    then palette_index g.cbgpal
    else if a == 0xFF69
    then palette_read g.cbgpal
    else if a == 0xFF6A
    then palette_index g.csprit
    else if a == 0xFF6B
    then palette_read g.csprit
    else 0xFF

unfoldable pub rbvram0 : Gpu → ℕ → ℕ
rbvram0 g a = get_or g.vram (bit_and a 0x1FFF) 0

unfoldable pub rbvram1 : Gpu → ℕ → ℕ
rbvram1 g a = get_or g.vram (0x2000 + bit_and a 0x1FFF) 0
