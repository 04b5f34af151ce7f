-- ===== src/GameBoy/Mode.antt =====
-- Hardware modes and speeds, kernel/src/gameboy/gbmode.rs.
use gb_os.Base.{ℕ, Bool, true, false}

pub data GbMode : Type 0 where
  classic color color_as_classic : GbMode

pub data GbSpeed : Type 0 where
  single double : GbSpeed

-- `GbSpeed as u32`.
unfoldable pub divider : GbSpeed → ℕ
divider single = 1
divider double = 2

-- The derived equality with `Color` and with `Classic`, and of a speed with `Double`.
unfoldable pub is_color : GbMode → Bool
is_color color = true
is_color _ = false

unfoldable pub is_classic : GbMode → Bool
is_classic classic = true
is_classic _ = false

unfoldable pub is_double : GbSpeed → Bool
is_double double = true
is_double single = false
