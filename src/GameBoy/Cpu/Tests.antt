-- ===== src/GameBoy/Cpu/Tests.antt =====
-- Tests of the instruction set, and its theorems at concrete states.
use gb_os.Base.{ℕ, ◌+◌, ◌%◌, ◌≡◌, refl, true, false, arith}
use gb_os.Base.{◌==◌, if◌then◌else◌}
use gb_os.GameBoy.Cpu.{Bus, Cpu, fetchbyte}
use gb_os.GameBoy.Cpu.Execute.{execute, do_cycle}
use gb_os.GameBoy.Cpu.Execute.Decode.{
  Operand, Operation, access_ticks, value_of, store_in, operate, execute_load, execute_operation,
}
use gb_os.GameBoy.Cpu.Sound.{IsSound, IsGood}
use gb_os.GameBoy.Cpu.Sound.Actions.{IsStep}
use gb_os.GameBoy.Cpu.Sound.Step.{execute-IsStep}
use gb_os.GameBoy.Cpu.Execute.Halted.{cycles, resumed, halted_until_request}

-- A flat memory of bytes.
abbrev memory : Bus
memory = record {
  State = ℕ → ℕ;
  rb = λ s a. (s a % 256, s);
  wb = λ s a v b. if a == b then v else s b;
  inte = λ s. s 0xFFFF % 256;
  intf = λ s. s 0xFF0F % 256;
  set_intf = λ s v b. if 0xFF0F == b then v else s b;
  switch_speed = λ s. s;
  do_cycle = λ s ticks. (ticks, s);
}

-- The same instruction at every address.
abbrev running : ℕ → Cpu memory
running opcode = record {
  reg = record {
    a = 0x01;
    f = 0xB0;
    b = 0;
    c = 0x13;
    d = 0;
    e = 0xD8;
    h = 1;
    l = 0x4D;
    sp = 0xFFFE;
    pc = 0x100;
  };
  mmu = λ a. opcode;
  halted = false;
  halt_bug = false;
  ime = false;
  setdi = 0;
  setei = 0;
}

-- `LD (HL),B`.
execute_load_example : execute memory (running 0x70) ≡ (
    let (v, c') = value_of memory Operand.in_b (fetchbyte memory (running 0x70)).1 in
    (
      4 + access_ticks Operand.at_hl + access_ticks Operand.in_b,
      store_in memory Operand.at_hl c' v,
    ))
unfolding fetchbyte
execute_load_example = execute_load memory Operand.at_hl Operand.in_b (running 0x70) tt refl

-- `SUB E`.
execute_operation_example : execute memory (running 0x93) ≡ (
    let (v, c') = value_of memory Operand.in_e (fetchbyte memory (running 0x93)).1 in
    (4 + access_ticks Operand.in_e, record c' { reg = operate Operation.sub c'.reg v }))
unfolding fetchbyte
execute_operation_example = execute_operation memory Operation.sub Operand.in_e (running 0x93) refl

memory-IsSound : IsSound memory (λ s. Unit {0})
memory-IsSound = record {
  rb-lt = λ s a g. omega arith;
  rb-Good = λ s a g. tt;
  wb-Good = λ s a v g lt. tt;
  switch_speed-Good = λ s g. tt;
}

running-IsGood : (opcode : ℕ) → IsGood memory (λ s. Unit {0}) (running opcode)
running-IsGood opcode = record { good = tt; valid = omega arith }

-- `CALL 0xCDCD`.
execute-IsStep_example : IsStep memory (λ s. Unit {0}) (execute memory (running 0xCD))
execute-IsStep_example =
    execute-IsStep memory (λ s. Unit {0}) memory-IsSound (running 0xCD) (running-IsGood 0xCD)

-- Halted, in a machine whose third pause requests the vertical blank.
abbrev counting : Bus
counting = record {
  State = ℕ;
  rb = λ s a. (0, s);
  wb = λ s a v. s;
  inte = λ s. 1;
  intf = λ s. if s == 12 then 1 else 0;
  set_intf = λ s v. s;
  switch_speed = λ s. s;
  do_cycle = λ s ticks. (ticks, s + ticks);
}

abbrev halted : Cpu counting
halted = record {
  reg = (running 0).reg;
  mmu = 0;
  halted = true;
  halt_bug = false;
  ime = false;
  setdi = 0;
  setei = 0;
}

halted_until_request_example :
    (cycles counting 3 halted ≡ record halted { mmu = 12 })
    × (do_cycle counting (cycles counting 3 halted) ≡ resumed counting (record halted { mmu = 12 }))
halted_until_request_example =
    halted_until_request counting 3 halted refl refl (record { no_di = refl; no_ei = refl })
      (refl, (refl, (refl, tt))) (λ e. omega arith)
