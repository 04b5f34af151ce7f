-- ===== src/GameBoy/Mmu/Write/Cycle.antt =====
-- The connected hardware's cycle, transfers to video memory and the speed switch,
-- kernel/src/gameboy/mmu.rs.
use gb_os.Base.{ℕ, zero, suc, ◌+◌, ◌-◌, ◌*◌, ◌/◌, bit_or, false, not}
use gb_os.Base.{◌==◌, if◌then◌else◌}
use gb_os.Base.Word.{u16}
use gb_os.GameBoy.Mode.{GbSpeed, divider}
use gb_os.GameBoy.Serial
use gb_os.GameBoy.Serial.{Serial}
use gb_os.GameBoy.Timer
use gb_os.GameBoy.Timer.{Timer}
use gb_os.GameBoy.Gpu.Cycle as GpuCycle
use gb_os.GameBoy.Gpu.Write as GpuWrite
use gb_os.GameBoy.Mmu.{Mmu, DmaType, rb}

-- `n` bytes of a row from offset `j` on.
unfoldable pub row_loop : Mmu → ℕ → ℕ → Mmu
row_loop m zero j = m
row_loop m (suc n) j =
    let b = rb m (u16 (m.hdma_src + j)) in
    row_loop (record m { gpu = GpuWrite.wb m.gpu (u16 (m.hdma_dst + j)) b }) n (j + 1)

-- Sixteen bytes; the addresses wrap, as they do in a release build.
unfoldable pub perform_vramdma_row : Mmu → Mmu
unfolding row_loop
perform_vramdma_row m =
    let copied = row_loop m 0x10 0 in
    record copied {
      hdma_src = u16 (copied.hdma_src + 0x10);
      hdma_dst = u16 (copied.hdma_dst + 0x10);
      hdma_len = (if copied.hdma_len == 0 then 0x7F else copied.hdma_len - 1);
    }

unfoldable pub perform_hdma : Mmu → ℕ × Mmu
perform_hdma m =
    let m' = perform_vramdma_row m in
    if not (GpuCycle.may_hdma m.gpu)
    then (0, m)
    else (8, if m'.hdma_len == 0x7F then record m' { hdma_status = DmaType.no_dma } else m')

unfoldable pub perform_rows : ℕ → Mmu → Mmu
perform_rows zero m = m
perform_rows (suc n) m = perform_rows n (perform_vramdma_row m)

unfoldable pub perform_gdma : Mmu → ℕ × Mmu
unfolding perform_rows
perform_gdma m =
    let len = m.hdma_len + 1 in
    (len * 8, record (perform_rows len m) { hdma_status = DmaType.no_dma })

-- The transfer by the kind that is under way.
unfoldable pub vramdma_as : DmaType → Mmu → ℕ × Mmu
vramdma_as DmaType.no_dma m = (0, m)
vramdma_as DmaType.gdma m = perform_gdma m
vramdma_as DmaType.hdma m = perform_hdma m

unfoldable pub perform_vramdma : Mmu → ℕ × Mmu
perform_vramdma m = vramdma_as m.hdma_status m

-- Each unit runs, and its interrupt is moved to the flags.
unfoldable pub run_timer : Mmu → ℕ → Mmu
run_timer m cputicks =
    let t = Timer.do_cycle m.timer cputicks in
    record m { intf = bit_or m.intf t.interrupt; timer = record t { interrupt = 0 } }

unfoldable pub take_keypad : Mmu → Mmu
take_keypad m = record m {
  intf = bit_or m.intf m.keypad.interrupt;
  keypad = record (m.keypad) { interrupt = 0 };
}

unfoldable pub run_gpu : Mmu → ℕ → Mmu
run_gpu m gputicks =
    let g = GpuCycle.do_cycle m.gpu gputicks in
    record m { intf = bit_or m.intf g.interrupt; gpu = record g { interrupt = 0 } }

unfoldable pub run_serial : Mmu → ℕ → Mmu
run_serial m gputicks =
    let s = Serial.do_cycle m.serial gputicks in
    record m { intf = bit_or m.intf s.interrupt; serial = record s { interrupt = 0 } }

unfoldable pub do_cycle : Mmu → ℕ → ℕ × Mmu
do_cycle m ticks =
    let (vramticks, m1) = perform_vramdma m in
    let gputicks = ticks / divider m.gbspeed + vramticks in
    let cputicks = ticks + vramticks * divider m.gbspeed in
    let timed = take_keypad (run_timer m1 cputicks) in
    (gputicks, run_serial (run_gpu timed gputicks) gputicks)

-- The other speed.
unfoldable pub switched_speed : GbSpeed → GbSpeed
switched_speed GbSpeed.double = GbSpeed.single
switched_speed GbSpeed.single = GbSpeed.double

unfoldable pub switch_speed : Mmu → Mmu
switch_speed m = record m {
  gbspeed = (if m.speed_switch_req then switched_speed m.gbspeed else m.gbspeed);
  speed_switch_req = false;
}
