-- ===== src/GameBoy/Gpu/Tests.antt =====
-- The display's theorems at concrete states.
use gb_os.Base.{◌+◌, ◌%◌, ◌≡◌, refl, true, List, [], ◌∷◌, arith}
use gb_os.GameBoy.Gpu
use gb_os.GameBoy.Gpu.{Gpu}
use gb_os.GameBoy.Gpu.Render.Sprites.{renderscan}
use gb_os.GameBoy.Gpu.Render.OneLine.{KeepsOthers, renderscan-KeepsOthers}
use gb_os.GameBoy.Gpu.Cycle.{do_cycle}
use gb_os.GameBoy.Gpu.Cycle.Dots.{dot, IsTimed, do_cycle_moves_beam}
use gb_os.GameBoy.Gpu.Cycle.Power.{Operation, write, tick, after, IsClocked, display-IsClocked}

-- In the last line of a frame.
abbrev last_line : Gpu
last_line = record Gpu.new { lcd_on = true; mode = 1; line = 153; modeclock = 400 }

last_line-IsTimed : IsTimed last_line
last_line-IsTimed = record { clock_lt = omega arith; line_lt = omega arith; in_mode = refl }

do_cycle_moves_beam_example :
    (dot (do_cycle last_line 100) ≡ (dot last_line + 100) % 70224)
    × IsTimed (do_cycle last_line 100)
do_cycle_moves_beam_example = do_cycle_moves_beam last_line 100 refl last_line-IsTimed

-- Switched on, run, given a line to compare, and switched off.
abbrev session : List Operation
session = write 0xFF40 0x91 ∷ tick 1000 ∷ write 0xFF45 3 ∷ tick 80 ∷ write 0xFF40 0x11 ∷ []

display-IsClocked_example : IsClocked (after Gpu.new session)
display-IsClocked_example = display-IsClocked session

renderscan-KeepsOthers_example : KeepsOthers 153 last_line.frame (renderscan last_line).frame
renderscan-KeepsOthers_example = renderscan-KeepsOthers last_line
