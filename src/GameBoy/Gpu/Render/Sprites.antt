-- ===== src/GameBoy/Gpu/Render/Sprites.antt =====
-- The sprites of a line, and the whole line, kernel/src/gameboy/gpu.rs.
use gb_os.Base.{ℕ, zero, suc, ◌+◌, ◌-◌, ◌*◌, bit_and, Bool, false, not, ◌&&◌, ◌||◌}
use gb_os.Base.{List, [], ◌∷◌, ltb, leb, ◌==◌, if◌then◌else◌, get_or}
use gb_os.GameBoy.Mode.{is_color}
use gb_os.GameBoy.Gpu.{Gpu, Frame, PrioType, screen_w}
use gb_os.GameBoy.Gpu.Read.{component, rb, rbvram0, rbvram1}
use gb_os.GameBoy.Gpu.Render.{
  setcolor, setpal, setrgb, test_bit, color_number, draw_bg, clear_columns,
}

-- A sprite as object memory has it: its place is 8 columns and 16 lines beyond that of the source's
-- `spritex` and `spritey`, which may be negative.
pub record Sprite : Type 0 where
  pub x : ℕ
  pub y : ℕ
  pub index : ℕ

-- The first sprites that the line crosses, at most `room`, of the `n` from `index` on.
unfoldable pub sprites_on_line : Gpu → ℕ → ℕ → ℕ → List Sprite
unfolding rb
sprites_on_line g zero index room = []
sprites_on_line g (suc n) index room =
    let address = 0xFE00 + index * 4 in
    let y = rb g (address + 0) in
    let outside = ltb (g.line + 16) y || leb (y + g.sprite_size) (g.line + 16) in
    let found : Sprite = record { x = rb g (address + 1); y = y; index = index } in
    let rest = sprites_on_line g n (index + 1) (if outside then room else room - 1) in
    if room == 0 then [] else if outside then rest else found ∷ rest

-- `dmg_sprite_order` and `cgb_sprite_order`: whether the first is drawn no later than the second.
unfoldable pub dmg_sprite_order : Sprite → Sprite → Bool
dmg_sprite_order a b = if a.x == b.x then leb b.index a.index else leb b.x a.x

unfoldable pub cgb_sprite_order : Sprite → Sprite → Bool
cgb_sprite_order a b = leb b.index a.index

-- The order is total and no two sprites are equal in it, so every sort gives this list.
unfoldable pub insert_by : (Sprite → Sprite → Bool) → Sprite → List Sprite → List Sprite
insert_by order s [] = s ∷ []
insert_by order s (t ∷ rest) = if order s t then s ∷ t ∷ rest else t ∷ insert_by order s rest

unfoldable pub sort_by : (Sprite → Sprite → Bool) → List Sprite → List Sprite
unfolding insert_by
sort_by order [] = []
sort_by order (s ∷ rest) = insert_by order s (sort_by order rest)

-- The row of its tiles that a sprite shows, and its flags.
pub record SpriteRow : Type 0 where
  pub b1 : ℕ
  pub b2 : ℕ
  pub flags : ℕ

unfoldable pub sprite_row : Gpu → Sprite → SpriteRow
unfolding rb rbvram0 rbvram1 is_color
sprite_row g s =
    let address = 0xFE00 + s.index * 4 in
    let tilenum = bit_and (rb g (address + 2)) (if g.sprite_size == 16 then 0xFE else 0xFF) in
    let flags = rb g (address + 3) in
    let row = g.line + 16 - s.y in
    let tiley = if test_bit flags 6 then g.sprite_size - 1 - row else row in
    let tileaddress = 0x8000 + tilenum * 16 + tiley * 2 in
    let bank1 = test_bit flags 3 && is_color g.gbmode in
    record {
      b1 = (if bank1 then rbvram1 g tileaddress else rbvram0 g tileaddress);
      b2 = (if bank1 then rbvram1 g (tileaddress + 1) else rbvram0 g (tileaddress + 1));
      flags = flags;
    }

-- Whether the background hides the sprite in a column.
unfoldable pub is_hidden : Gpu → PrioType → Bool → Bool
unfolding is_color
is_hidden g PrioType.color0 belowbg = false
is_hidden g PrioType.prio_flag belowbg = if is_color g.gbmode then g.lcdc0 else belowbg
is_hidden g PrioType.normal belowbg = if is_color g.gbmode then g.lcdc0 && belowbg else belowbg

-- Column `x` of a sprite.
unfoldable pub draw_sprite_pixel : Gpu → Sprite → SpriteRow → ℕ → Frame → Frame
unfolding is_hidden color_number component setrgb setcolor setpal is_color
draw_sprite_pixel g s row x f =
    let column = s.x + x - 8 in
    let colnr = color_number row.b1 row.b2 (if test_bit row.flags 5 then x else 7 - x) in
    let hidden = is_hidden g (get_or f.bgprio column PrioType.normal) (test_bit row.flags 7) in
    let palnr = bit_and row.flags 0x07 in
    let usepal1 = test_bit row.flags 4 in
    if ltb (s.x + x) 8 || leb (screen_w + 8) (s.x + x)
    then f
    else if colnr == 0
    then f
    else if hidden
    then f
    else if is_color g.gbmode
    then setpal g.line
        (setrgb g.line f column (component g.csprit palnr colnr 0)
          (component g.csprit palnr colnr 1) (component g.csprit palnr colnr 2))
        column (32 + palnr * 4 + colnr)
    else setpal g.line
        (setcolor g.line f column (get_or (if usepal1 then g.pal1 else g.pal0) colnr 0)) column
        (68 + (if usepal1 then 1 else 0) * 4 + colnr)

unfoldable pub draw_sprite_columns : Gpu → Sprite → SpriteRow → ℕ → ℕ → Frame → Frame
unfolding draw_sprite_pixel
draw_sprite_columns g s row zero x f = f
draw_sprite_columns g s row (suc n) x f =
    draw_sprite_columns g s row n (x + 1) (draw_sprite_pixel g s row x f)

unfoldable pub draw_sprite : Gpu → Frame → Sprite → Frame
unfolding draw_sprite_columns sprite_row
draw_sprite g f s =
    if ltb s.x 1 || leb (screen_w + 8) s.x
    then f
    else draw_sprite_columns g s (sprite_row g s) 8 0 f

unfoldable pub draw_each : Gpu → List Sprite → Frame → Frame
unfolding draw_sprite
draw_each g [] f = f
draw_each g (s ∷ rest) f = draw_each g rest (draw_sprite g f s)

unfoldable pub draw_sprites : Gpu → Gpu
unfolding sprites_on_line dmg_sprite_order cgb_sprite_order sort_by draw_each is_color
draw_sprites g =
    let order = if is_color g.gbmode then cgb_sprite_order else dmg_sprite_order in
    let sprites = sort_by order (sprites_on_line g 40 0 10) in
    if not g.sprite_on then g else record g { frame = draw_each g sprites g.frame }

unfoldable pub renderscan : Gpu → Gpu
unfolding clear_columns draw_bg draw_sprites
renderscan g =
    let cleared : Gpu = record g { frame = clear_columns g.line screen_w 0 g.frame } in
    if g.first_frame then g else draw_sprites (draw_bg cleared)
