-- ===== src/GameBoy/Gpu/Write.antt =====
-- Writes to `GPU`, kernel/src/gameboy/gpu.rs.
use gb_os.Base.{ℕ, ◌+◌, ◌-◌, ◌*◌, bit_and, bit_or, Bool, true, false, not, ◌&&◌}
use gb_os.Base.{List, [], ◌∷◌, ◌==◌, in_range, if◌then◌else◌, length, replicate, set}
use gb_os.Base.Word.{shl, shr}
use gb_os.GameBoy.Mode.{is_color}
use gb_os.GameBoy.Gpu.{Gpu, PaletteRam}
use gb_os.GameBoy.Gpu.Read.{component, palnum, colnum}
use gb_os.GameBoy.Gpu.Cycle.{check_interrupt_lyc, change_mode}

-- `self.cbgpal[palnum][colnum][part] = v`.
unfoldable pub set_component : PaletteRam → ℕ → ℕ → PaletteRam
unfolding palnum colnum
set_component p part v = record p { colors = set p.colors (palnum p * 12 + colnum p * 3 + part) v }

unfoldable pub palette_select : PaletteRam → ℕ → PaletteRam
palette_select p v = record p { ind = bit_and v 0x3F; inc = (bit_and v 0x80 == 0x80) }

-- A byte of the selected colour: the even byte has red and three bits of green, the odd one the
-- rest.
unfoldable pub palette_store : PaletteRam → ℕ → PaletteRam
unfolding component palnum colnum set_component
palette_store p v =
    let green = component p (palnum p) (colnum p) 1 in
    if bit_and p.ind 0x01 == 0x00
    then set_component (set_component p 0 (bit_and v 0x1F)) 1
        (bit_or (bit_and green 0x18) (shr v 5))
    else set_component (set_component p 1 (bit_or (bit_and green 0x07) (shl (bit_and v 0x3) 3))) 2
        (bit_and (shr v 2) 0x1F)

unfoldable pub palette_write : PaletteRam → ℕ → PaletteRam
unfolding palette_store
palette_write p v =
    let stored = palette_store p v in
    if p.inc then record stored { ind = bit_and (p.ind + 1) 0x3F } else stored

unfoldable pub get_monochrome_pal_val : ℕ → ℕ → ℕ
get_monochrome_pal_val value index =
    let shade = bit_and (shr value (2 * index)) 0x03 in
    if shade == 0 then 255 else if shade == 1 then 192 else if shade == 2 then 96 else 0

-- The four shades of a register.
unfoldable pub shades : ℕ → List ℕ
unfolding get_monochrome_pal_val
shades value =
    get_monochrome_pal_val value 0
    ∷ get_monochrome_pal_val value 1
    ∷ get_monochrome_pal_val value 2
    ∷ get_monochrome_pal_val value 3
    ∷ []

unfoldable pub update_pal : Gpu → Gpu
unfolding shades
update_pal g = record g { palb = shades g.palbr; pal0 = shades g.pal0r; pal1 = shades g.pal1r }

unfoldable pub clear_screen : Gpu → Gpu
clear_screen g = record g {
  frame = record (g.frame) {
    rgb = replicate (length g.frame.rgb) 255;
    pal_data = replicate (length g.frame.pal_data) 0;
  };
  updated = true;
}

-- The control register's bits.
unfoldable pub set_control : Gpu → ℕ → Gpu
set_control g v = record g {
  lcd_on = (bit_and v 0x80 == 0x80);
  win_tilemap = (if bit_and v 0x40 == 0x40 then 0x9C00 else 0x9800);
  win_on = (bit_and v 0x20 == 0x20);
  tilebase = (if bit_and v 0x10 == 0x10 then 0x8000 else 0x8800);
  bg_tilemap = (if bit_and v 0x08 == 0x08 then 0x9C00 else 0x9800);
  sprite_size = (if bit_and v 0x04 == 0x04 then 16 else 8);
  sprite_on = (bit_and v 0x02 == 0x02);
  lcdc0 = (bit_and v 0x01 == 0x01);
}

-- What the display does when the control register switches it off or on.
unfoldable pub switched : Bool → Gpu → Gpu
unfolding clear_screen change_mode
switched was_on g =
    if was_on && not g.lcd_on
    then clear_screen
        (record g { modeclock = 0; line = 0; mode = 0; wy_trigger = false; first_frame = true })
    else if not was_on && g.lcd_on
    then (let entered = change_mode g 2 in record entered { modeclock = 4 })
    else g

unfoldable pub set_stat : Gpu → ℕ → Gpu
set_stat g v = record g {
  lyc_inte = (bit_and v 0x40 == 0x40);
  m2_inte = (bit_and v 0x20 == 0x20);
  m1_inte = (bit_and v 0x10 == 0x10);
  m0_inte = (bit_and v 0x08 == 0x08);
}

-- At 0xFF46 the source panics; `MMU` handles that address itself.
unfoldable pub wb : Gpu → ℕ → ℕ → Gpu
unfolding set_control switched set_stat check_interrupt_lyc update_pal palette_select palette_write
    is_color
wb g a v =
    if in_range 0x8000 0x9FFF a
    then record g { vram = set g.vram (bit_or (g.vrambank * 0x2000) (bit_and a 0x1FFF)) v }
    else if in_range 0xFE00 0xFE9F a
    then record g { voam = set g.voam (a - 0xFE00) v }
    else if a == 0xFF40
    then switched g.lcd_on (set_control g v)
    else if a == 0xFF41
    then set_stat g v
    else if a == 0xFF42
    then record g { scy = v }
    else if a == 0xFF43
    then record g { scx = v }
    else if a == 0xFF44
    then g
    else if a == 0xFF45
    then check_interrupt_lyc (record g { lyc = v })
    else if a == 0xFF46
    then g
    else if a == 0xFF47
    then update_pal (record g { palbr = v })
    else if a == 0xFF48
    then update_pal (record g { pal0r = v })
    else if a == 0xFF49
    then update_pal (record g { pal1r = v })
    else if a == 0xFF4A
    then record g { winy = v }
    else if a == 0xFF4B
    then record g { winx = v }
    else if a == 0xFF4C
    then g
    else if a == 0xFF4E
    then g
    else if in_range 0xFF4F 0xFF6B a && not (is_color g.gbmode)
    then g
    else if a == 0xFF4F
    then record g { vrambank = bit_and v 0x01 }
    else if a == 0xFF68
    then record g { cbgpal = palette_select g.cbgpal v }
    else if a == 0xFF69
    then record g { cbgpal = palette_write g.cbgpal v }
    else if a == 0xFF6A
    then record g { csprit = palette_select g.csprit v }
    else if a == 0xFF6B
    then record g { csprit = palette_write g.csprit v }
    else g
