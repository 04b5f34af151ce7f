-- ===== src/GameBoy/Gpu.antt =====
-- The picture processing unit, kernel/src/gameboy/gpu.rs: its state. The fields `data`, `pal_data`
-- and `bgprio` stand in a `Frame`, and each of the two Color palettes, with its index and the
-- index's increment, in a `PaletteRam`, because the code treats the two in the same way.
pub mod Read
pub mod Write
pub mod Cycle
pub mod Render
mod Tests
use gb_os.Base.{ℕ, ◌+◌, ◌*◌, Bool, true, false, List, replicate}
use gb_os.GameBoy.Mode.{GbMode}

abbrev pub screen_w : ℕ
screen_w = 160

abbrev pub screen_h : ℕ
screen_h = 144

abbrev pub vram_size : ℕ
vram_size = 0x4000

abbrev pub voam_size : ℕ
voam_size = 0xA0

pub data PrioType : Type 0 where
  color0 prio_flag normal : PrioType

-- The picture: three bytes and one palette index for a pixel, and the priorities of one line.
pub record Frame : Type 0 where
  pub rgb : List ℕ
  pub pal_data : List ℕ
  pub bgprio : List PrioType

-- Eight palettes of four colours of three components, in one list.
pub record PaletteRam : Type 0 where
  pub inc : Bool
  pub ind : ℕ
  pub colors : List ℕ

pub record Gpu : Type 0 where
  pub mode : ℕ
  pub modeclock : ℕ
  pub line : ℕ
  pub lyc : ℕ
  pub lcd_on : Bool
  pub win_tilemap : ℕ
  pub win_on : Bool
  pub tilebase : ℕ
  pub bg_tilemap : ℕ
  pub sprite_size : ℕ
  pub sprite_on : Bool
  pub lcdc0 : Bool
  pub lyc_inte : Bool
  pub m0_inte : Bool
  pub m1_inte : Bool
  pub m2_inte : Bool
  pub scy : ℕ
  pub scx : ℕ
  pub winy : ℕ
  pub winx : ℕ
  pub wy_trigger : Bool
  -- The field `wy_pos`, which starts at -1, is one less than this number.
  pub wy_next : ℕ
  pub palbr : ℕ
  pub pal0r : ℕ
  pub pal1r : ℕ
  pub palb : List ℕ
  pub pal0 : List ℕ
  pub pal1 : List ℕ
  pub vram : List ℕ
  pub voam : List ℕ
  pub cbgpal : PaletteRam
  pub csprit : PaletteRam
  pub vrambank : ℕ
  pub frame : Frame
  pub updated : Bool
  pub interrupt : ℕ
  pub gbmode : GbMode
  pub hblanking : Bool
  pub first_frame : Bool

unfoldable pub empty_palette : PaletteRam
empty_palette = record { inc = false; ind = 0; colors = replicate 96 0 }

unfoldable pub new : Gpu
unfolding empty_palette
new = record {
  mode = 0;
  modeclock = 0;
  line = 0;
  lyc = 0;
  lcd_on = false;
  win_tilemap = 0x9C00;
  win_on = false;
  tilebase = 0x8000;
  bg_tilemap = 0x9C00;
  sprite_size = 8;
  sprite_on = false;
  lcdc0 = false;
  lyc_inte = false;
  m2_inte = false;
  m1_inte = false;
  m0_inte = false;
  scy = 0;
  scx = 0;
  winy = 0;
  winx = 0;
  wy_trigger = false;
  wy_next = 0;
  palbr = 0;
  pal0r = 0;
  pal1r = 1;
  palb = replicate 4 0;
  pal0 = replicate 4 0;
  pal1 = replicate 4 0;
  vram = replicate vram_size 0;
  voam = replicate voam_size 0;
  frame = record {
    rgb = replicate (screen_w * screen_h * 3) 0;
    pal_data = replicate (screen_w * screen_h) 0;
    bgprio = replicate screen_w PrioType.normal;
  };
  updated = false;
  interrupt = 0;
  gbmode = GbMode.classic;
  cbgpal = empty_palette;
  csprit = empty_palette;
  vrambank = 0;
  hblanking = false;
  first_frame = false;
}

unfoldable pub new_cgb : Gpu
unfolding new
new_cgb = record new { gbmode = GbMode.color }
