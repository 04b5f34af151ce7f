-- ===== src/GameBoy/Gpu/Cycle.antt =====
-- The display's clock, kernel/src/gameboy/gpu.rs.
pub mod Dots
pub mod Power
use gb_os.Base.{ℕ, zero, suc, ◌+◌, ◌-◌, ◌%◌, bit_or, Bool, true, false, not, ◌&&◌}
use gb_os.Base.{ltb, leb, ◌==◌, if◌then◌else◌}
use gb_os.GameBoy.Gpu.{Gpu}
use gb_os.GameBoy.Gpu.Render.Sprites.{renderscan}

unfoldable pub check_interrupt_lyc : Gpu → Gpu
check_interrupt_lyc g =
    if g.lyc_inte && g.line == g.lyc then record g { interrupt = bit_or g.interrupt 0x02 } else g

-- The status interrupt of a mode, where it is enabled.
unfoldable pub request_stat : Bool → Gpu → Gpu
request_stat enabled g = if enabled then record g { interrupt = bit_or g.interrupt 0x02 } else g

unfoldable pub change_mode : Gpu → ℕ → Gpu
unfolding renderscan request_stat
change_mode g mode =
    let entered : Gpu = record g { mode = mode } in
    let drawn : Gpu = renderscan entered in
    if mode == 0
    then request_stat g.m0_inte (record drawn { hblanking = true })
    else if mode == 1
    then request_stat g.m1_inte (record entered {
      wy_trigger = false;
      interrupt = bit_or g.interrupt 0x01;
      updated = true;
      first_frame = false;
    })
    else if mode == 2
    then request_stat g.m2_inte entered
    else if mode == 3
    then (if g.win_on && not g.wy_trigger && g.line == g.winy
        then record entered { wy_trigger = true; wy_next = 0 }
        else entered)
    else entered

-- A change of mode, unless the mode is the present one.
unfoldable pub enter_mode : Gpu → ℕ → Gpu
enter_mode g mode = if g.mode == mode then g else change_mode g mode

-- The line's end, at 456 ticks.
unfoldable pub end_line : Gpu → Gpu
end_line g =
    let moved : Gpu = record g { modeclock = g.modeclock - 456; line = (g.line + 1) % 154 } in
    let checked : Gpu = check_interrupt_lyc moved in
    if leb 144 checked.line then enter_mode checked 1 else checked

-- The mode of a line that is shown.
unfoldable pub line_mode : Gpu → Gpu
line_mode g =
    if ltb g.line 144
    then enter_mode g (if leb g.modeclock 80 then 2 else if leb g.modeclock 252 then 3 else 0)
    else g

-- One round of the loop, for at most 80 ticks.
unfoldable pub advance : Gpu → ℕ → Gpu
advance g curticks =
    let moved : Gpu = record g { modeclock = g.modeclock + curticks } in
    line_mode (if leb 456 moved.modeclock then end_line moved else moved)

-- The loop, with fuel for its rounds.
unfoldable pub run_ticks : ℕ → Gpu → ℕ → Gpu
run_ticks zero g ticksleft = g
run_ticks (suc fuel) g ticksleft =
    let curticks = if leb 80 ticksleft then 80 else ticksleft in
    let rest = run_ticks fuel (advance g curticks) (ticksleft - curticks) in
    if ticksleft == 0 then g else rest

unfoldable pub do_cycle : Gpu → ℕ → Gpu
do_cycle g ticks =
    if not g.lcd_on then g else run_ticks ticks (record g { hblanking = false }) ticks

unfoldable pub may_hdma : Gpu → Bool
may_hdma g = g.hblanking
