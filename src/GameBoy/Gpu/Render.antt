-- ===== src/GameBoy/Gpu/Render.antt =====
-- The renderer of `GPU`, kernel/src/gameboy/gpu.rs: one line of the picture.
pub mod Sprites
pub mod OneLine
use gb_os.Base.{
  ℕ, zero, suc, ◌+◌, ◌-◌, ◌*◌, ◌%◌, bit_and, bit_or, Bool, true, false, not, ◌&&◌, ◌||◌,
}
use gb_os.Base.{Option, none, some, leb, ◌==◌, if◌then◌else◌, get_or, set}
use gb_os.Base.Word.{u8, u16, shl, shr}
use gb_os.GameBoy.Mode.{GbMode, is_color}
use gb_os.GameBoy.Gpu.{Gpu, Frame, PrioType, screen_w}
use gb_os.GameBoy.Gpu.Read.{bit_if, component, rbvram0, rbvram1}

-- Three bytes of the picture from an index on.
unfoldable pub set_three : Frame → ℕ → ℕ → ℕ → ℕ → Frame
set_three f i r g b = record f { rgb = set (set (set f.rgb (i + 0) r) (i + 1) g) (i + 2) b }

unfoldable pub setcolor : ℕ → Frame → ℕ → ℕ → Frame
unfolding set_three
setcolor line f x color = set_three f (line * screen_w * 3 + x * 3) color color color

unfoldable pub setpal : ℕ → Frame → ℕ → ℕ → Frame
setpal line f x pal_idx = record f { pal_data = set f.pal_data (line * screen_w + x) pal_idx }

-- Gambatte's correction of the Color palette.
unfoldable pub setrgb : ℕ → Frame → ℕ → ℕ → ℕ → ℕ → Frame
unfolding set_three
setrgb line f x r g b =
    set_three f (line * screen_w * 3 + x * 3) (u8 (shr (r * 13 + g * 2 + b) 1))
      (u8 (shl (g * 3 + b) 1)) (u8 (shr (r * 3 + g * 2 + b * 11) 1))

-- `flags & (1 << k) != 0`.
abbrev pub test_bit : ℕ → ℕ → Bool
test_bit flags k = not (bit_and flags (shl 1 k) == 0)

-- The colour number of a pixel from the two bytes of its tile's row.
unfoldable pub color_number : ℕ → ℕ → ℕ → ℕ
color_number b1 b2 bit = bit_or (bit_if (test_bit b1 bit) 1) (bit_if (test_bit b2 bit) 2)

-- Where a pixel of the background comes from.
pub record Pixel : Type 0 where
  pub tilemapbase : ℕ
  pub tiley : ℕ
  pub tilex : ℕ
  pub pixely : ℕ
  pub pixelx : ℕ

-- The window's pixel where the window covers column `x`, else the background's, if it is drawn.
-- `winy` is the window's row, if the line shows the window.
unfoldable pub pixel_source : Gpu → Option ℕ → Bool → ℕ → Option Pixel
pixel_source g winy drawbg x =
    let bgy = u8 (g.scy + g.line) in
    let bgx = g.scx + x in
    let background : Pixel = record {
      tilemapbase = g.bg_tilemap;
      tiley = bit_and (shr bgy 3) 31;
      tilex = bit_and (shr (u16 bgx) 3) 31;
      pixely = bit_and bgy 0x07;
      pixelx = bit_and (u8 bgx) 0x07;
    } in
    let below = if drawbg then some background else none in
    elim winy [
      | none ↦ below
      | some row ↦
          if leb g.winx (x + 7)
          then (let column = x + 7 - g.winx in
              some (record {
                tilemapbase = g.win_tilemap;
                tiley = bit_and (shr (u16 row) 3) 31;
                tilex = shr (u16 column) 3;
                pixely = bit_and (u16 row) 0x07;
                pixelx = bit_and (u8 column) 0x07;
              }))
          else below
    ]

-- The address of a tile's first byte: by its number, signed where the tiles start at 0x8800.
unfoldable pub tile_address : Gpu → ℕ → ℕ
tile_address g tilenr =
    g.tilebase + (if g.tilebase == 0x8000 then tilenr else (tilenr + 128) % 256) * 16

-- One pixel of the background or window.
unfoldable pub draw_pixel : Gpu → Frame → ℕ → Pixel → Frame
unfolding is_color rbvram0 rbvram1 tile_address color_number component setrgb setcolor setpal
draw_pixel g f x p =
    let address = p.tilemapbase + p.tiley * 32 + p.tilex in
    let tilenr = rbvram0 g address in
    let color = is_color g.gbmode in
    let flags = if color then rbvram1 g address else 0 in
    let palnr = bit_and flags 0x07 in
    let row = p.pixely * 2 in
    let a0 = tile_address g tilenr + (if test_bit flags 6 then 14 - row else row) in
    let vram1 = test_bit flags 3 in
    let b1 = if vram1 then rbvram1 g a0 else rbvram0 g a0 in
    let b2 = if vram1 then rbvram1 g (a0 + 1) else rbvram0 g (a0 + 1) in
    let xbit = if test_bit flags 5 then p.pixelx else 7 - p.pixelx in
    let colnr = color_number b1 b2 xbit in
    let prio =
      if colnr == 0
      then PrioType.color0
      else if test_bit flags 7
      then PrioType.prio_flag
      else PrioType.normal in
    let marked : Frame = record f { bgprio = set f.bgprio x prio } in
    if color
    then setpal g.line
        (setrgb g.line marked x (component g.cbgpal palnr colnr 0)
          (component g.cbgpal palnr colnr 1) (component g.cbgpal palnr colnr 2))
        x (palnr * 4 + colnr)
    else setpal g.line (setcolor g.line marked x (get_or g.palb colnr 0)) x (64 + colnr)

-- `winy < 0`.
abbrev is_none : Option ℕ → Bool
is_none none = true
is_none (some row) = false

-- The columns from `x` on, `n` of them.
unfoldable pub draw_columns : Gpu → Option ℕ → Bool → ℕ → ℕ → Frame → Frame
unfolding draw_pixel pixel_source
draw_columns g winy drawbg zero x f = f
draw_columns g winy drawbg (suc n) x f =
    let f' : Frame = elim (pixel_source g winy drawbg x) [
      | none ↦ f
      | some p ↦ draw_pixel g f x p
    ] in
    draw_columns g winy drawbg n (x + 1) f'

-- The window's row on this line, and the next one.
unfoldable pub window_row : Gpu → Option ℕ × ℕ
window_row g =
    if g.win_on && g.wy_trigger && leb g.winx 166
    then (some g.wy_next, g.wy_next + 1)
    else (none, g.wy_next)

unfoldable pub draw_bg : Gpu → Gpu
unfolding window_row draw_columns is_color
draw_bg g =
    let drawbg = is_color g.gbmode || g.lcdc0 in
    let (winy, next_row) = window_row g in
    let drawn = draw_columns g winy drawbg screen_w 0 g.frame in
    record g { wy_next = next_row; frame = (if is_none winy && not drawbg then g.frame else drawn) }

-- The line in white, before it is drawn.
unfoldable pub clear_columns : ℕ → ℕ → ℕ → Frame → Frame
unfolding setcolor setpal
clear_columns line zero x f = f
clear_columns line (suc n) x f =
    let cleared = setpal line (setcolor line f x 255) x 0 in
    clear_columns line n (x + 1) (record cleared { bgprio = set cleared.bgprio x PrioType.normal })
