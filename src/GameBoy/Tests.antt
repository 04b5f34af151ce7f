-- ===== src/GameBoy/Tests.antt =====
-- Tests of the processor's parts, and their theorems at concrete states.
use gb_os.Base.{ℕ, ◌+◌, ◌/◌, ◌≡◌, refl, true, false, arith}
use gb_os.Base.{◌==◌, if◌then◌else◌}
use gb_os.Base.Word.{u16}
use gb_os.GameBoy.Register.{Registers}
use gb_os.GameBoy.Timer
use gb_os.GameBoy.Timer.{Timer, do_cycle}
use gb_os.GameBoy.Timer.Edges.{period, counted, do_cycle_counts_periods, whole_period_missed}
use gb_os.GameBoy.Cpu.{Bus, Cpu, push, pop, handle_interrupts}
use gb_os.GameBoy.Input.{InputState}
use gb_os.Base.{zero, suc, ap, inr, [], length, replicate, length-replicate}
use gb_os.GameBoy.Device.{mmu_bus}
use gb_os.GameBoy.Device.Ram.{HasRam, stack_round_trip}
use gb_os.GameBoy.Mmu.{fill_random}
use gb_os.GameBoy.Mmu.New.{initial}
use gb_os.GameBoy.Gpu
use gb_os.GameBoy.Mode.{GbMode}
use gb_os.GameBoy.Mbc.Cart.{mbc0}
use gb_os.GameBoy.Cpu.Interrupts.{IsHandled, interrupt_taken, spurious_interrupt}

abbrev registers : Registers
registers = record {
  a = 0x01;
  f = 0xB5;
  b = 0;
  c = 0x13;
  d = 0;
  e = 0xD8;
  h = 1;
  l = 0x4D;
  sp = 0xFFFE;
  pc = 0x100;
}

-- A timer about to overflow, with a period of 64 cycles.
abbrev timer : Timer
timer = record { div = 62; tima = 0xFF; tma = 7; tac = 6; cycles = 0; interrupt = 0 }

do_cycle_counts_periods_example : do_cycle timer 4 ≡ (
    let moved : Timer = record timer { div = u16 (62 + 4) } in
    if (62 + 4) / period 6 == 62 / period 6 then moved else counted moved)
unfolding Timer.selected_bit
do_cycle_counts_periods_example =
    do_cycle_counts_periods timer 4 (omega arith) (λ e. omega arith) (omega arith)

-- The same timer with a period of 16 cycles.
abbrev fast_timer : Timer
fast_timer = record timer { tac = 5 }

whole_period_missed_example : do_cycle fast_timer 16 ≡ record fast_timer { div = u16 (62 + 16) }
whole_period_missed_example = whole_period_missed fast_timer (omega arith) refl

-- A flat memory, with the interrupt registers at their addresses.
abbrev memory : Bus
memory = record {
  State = ℕ → ℕ;
  rb = λ s a. (s a, s);
  wb = λ s a v b. if a == b then v else s b;
  inte = λ s. s 0xFFFF;
  intf = λ s. s 0xFF0F;
  set_intf = λ s v b. if 0xFF0F == b then v else s b;
  switch_speed = λ s. s;
  do_cycle = λ s ticks. (ticks, s);
}

-- Interrupts 1 and 2 are requested and enabled.
abbrev cpu : Cpu memory
cpu = record {
  reg = registers;
  mmu = λ a. if a == 0xFFFF then 0x1F else if a == 0xFF0F then 0x06 else 0;
  halted = true;
  halt_bug = false;
  ime = true;
  setdi = 0;
  setei = 0;
}

-- Only bit 5, which belongs to no interrupt, is requested and enabled.
abbrev spurious_cpu : Cpu memory
spurious_cpu = record cpu {
  mmu = λ a. if a == 0xFFFF then 0x20 else if a == 0xFF0F then 0x26 else 0;
}

-- The emulator's processor before its first instruction, with the stack at the end of high RAM.
abbrev machine : Cpu mmu_bus
machine = record {
  reg = registers;
  mmu = initial (mbc0 (record { rom = [] })) Gpu.new GbMode.classic;
  halted = false;
  halt_bug = false;
  ime = true;
  setdi = 0;
  setei = 0;
}

length-fill_random : (n x : ℕ) → length (fill_random n x) ≡ n
unfolding fill_random
length-fill_random zero x = refl
length-fill_random (suc n) x = ap suc (length-fill_random n _)

machine-HasRam : HasRam machine.mmu
unfolding initial replicate
machine-HasRam = record {
  banked = record {
    size = length-fill_random 0x8000 42;
    bank_min = omega arith;
    bank_max = omega arith;
  };
  high_size = length-replicate {A = ℕ} 0x7F 0;
}

stack_round_trip_example :
    let (popped, after) = pop mmu_bus (push mmu_bus machine 0x1234) in
    (popped ≡ 0x1234) × (after.reg ≡ machine.reg)
stack_round_trip_example =
    stack_round_trip machine 0x1234 machine-HasRam (inr (omega arith)) (inr (omega arith))
      (omega arith) (omega arith)

interrupt_taken_example : IsHandled memory cpu 1 (handle_interrupts memory cpu)
interrupt_taken_example = interrupt_taken memory cpu 1 refl (omega arith) refl refl

spurious_interrupt_example :
    handle_interrupts memory spurious_cpu ≡ (0, record spurious_cpu { halted = false; ime = false })
spurious_interrupt_example = spurious_interrupt memory spurious_cpu refl (λ e. omega arith) refl

abbrev arrows : InputState
arrows = record { pressed = 0x0C }
