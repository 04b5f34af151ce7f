-- ===== src/GameBoy/Alu/Tests.antt =====
-- Tests of the arithmetic, and its theorems at concrete registers.
use gb_os.Base.{◌+◌, ◌%◌, ◌≡◌, refl, true, ◌&&◌, arith}
use gb_os.Base.{ltb}
use gb_os.GameBoy.Register.{CpuFlag, Registers, IsValid, flag, set_flag, mask}
use gb_os.GameBoy.Alu.{bit_of, alu_add, alu_daa, daa_adjusted}
use gb_os.GameBoy.Alu.Daa.{packed, daa_after_add}

-- A is 0x45 and the carry flag is set.
abbrev forty_five : Registers
forty_five = record {
  a = 0x45;
  f = 0x10;
  b = 0;
  c = 0x13;
  d = 0;
  e = 0xD8;
  h = 1;
  l = 0x4D;
  sp = 0xFFFE;
  pc = 0x100;
}

forty_five-IsValid : IsValid forty_five
forty_five-IsValid = omega arith

forty_five_packed : forty_five.a ≡ packed 45
unfolding packed
forty_five_packed = refl

decimal_sum : (alu_daa (alu_add forty_five 0x38 true)).a ≡ 0x84
unfolding alu_daa alu_add daa_adjusted flag mask set_flag
decimal_sum = refl

daa_after_add_example :
    let r' = alu_daa (alu_add forty_five (packed 58) true) in
    let total = 45 + 58 + bit_of (true && flag forty_five CpuFlag.c) in
    (r'.a ≡ packed (total % 100)) × (flag r' CpuFlag.c ≡ ltb 99 total)
daa_after_add_example =
    daa_after_add forty_five 45 58 true forty_five-IsValid (omega arith) (omega arith)
      forty_five_packed
