-- ===== src/GameBoy/Alu.antt =====
-- The arithmetic and logic operations of kernel/src/gameboy/cpu.rs. They read and write
-- `self.reg` alone, so they stand over the register file.
mod Tests
pub mod Valid
pub mod Flags
pub mod Daa
pub mod Rotate
use gb_os.Base.{
  ℕ, ◌+◌, ◌-◌, ◌*◌, ◌/◌, ◌%◌, ◌^◌, bit_and, bit_or, bit_xor, Bool, true, false, ◌&&◌, ◌||◌, not,
}
use gb_os.Base.{ltb, leb, ◌==◌, in_range, if◌then◌else◌}
use gb_os.Base.Word.{u8, u16, shl, shr, wrapping_sub8}
use gb_os.GameBoy.Register.{CpuFlag, Registers, hl, set_hl, flag, set_flag}

-- Four flags in the order of the source's calls.
abbrev pub set_flags : Registers → Bool → Bool → Bool → Bool → Registers
set_flags r zero negative half carry =
    set_flag (set_flag (set_flag (set_flag r CpuFlag.z zero) CpuFlag.n negative) CpuFlag.h half)
      CpuFlag.c carry

-- `if condition { 1 } else { 0 }`.
abbrev pub bit_of : Bool → ℕ
bit_of condition = if condition then 1 else 0

unfoldable pub alu_add : Registers → ℕ → Bool → Registers
alu_add r value with_carry =
    let carry = bit_of (with_carry && flag r CpuFlag.c) in
    let result = r.a + value + carry in
    let half = bit_and r.a 0x0F + bit_and value 0x0F + carry in
    set_flags (record r { a = u8 result }) (u8 result == 0) false (ltb 0x0F half) (ltb 0xFF result)

-- The source subtracts at `i16`, where nothing wraps: a negative result is `a < value + carry`,
-- and its cast to `u8` adds a multiple of 256.
unfoldable pub alu_sub : Registers → ℕ → Bool → Registers
alu_sub r value with_carry =
    let carry = bit_of (with_carry && flag r CpuFlag.c) in
    let result = u8 (r.a + 2 ^ 16 - value - carry) in
    set_flags (record r { a = result }) (result == 0) true
      (ltb (bit_and r.a 0x0F) (bit_and value 0x0F + carry)) (ltb r.a (value + carry))

unfoldable pub alu_and : Registers → ℕ → Registers
alu_and r value =
    let result = bit_and r.a value in
    set_flags (record r { a = result }) (result == 0) false true false

unfoldable pub alu_or : Registers → ℕ → Registers
alu_or r value =
    let result = bit_or r.a value in
    set_flags (record r { a = result }) (result == 0) false false false

unfoldable pub alu_xor : Registers → ℕ → Registers
alu_xor r value =
    let result = bit_xor r.a value in
    set_flags (record r { a = result }) (result == 0) false false false

unfoldable pub alu_cp : Registers → ℕ → Registers
alu_cp r value =
    let result = u8 (r.a + 2 ^ 16 - value) in
    set_flags r (result == 0) true (ltb (bit_and r.a 0x0F) (bit_and value 0x0F)) (ltb r.a value)

-- The operations below return the result beside the registers; the caller stores it.
unfoldable pub alu_inc : Registers → ℕ → ℕ × Registers
alu_inc r value =
    let result = u8 (value + 1) in
    (
      result,
      set_flag (set_flag (set_flag r CpuFlag.z (result == 0)) CpuFlag.n false) CpuFlag.h
          (ltb 0x0F (bit_and value 0x0F + 1)),
    )

unfoldable pub alu_dec : Registers → ℕ → ℕ × Registers
alu_dec r value =
    let result = wrapping_sub8 value 1 in
    (
      result,
      set_flag (set_flag (set_flag r CpuFlag.z (result == 0)) CpuFlag.n true) CpuFlag.h
          (bit_and value 0x0F == 0),
    )

unfoldable pub alu_add16 : Registers → ℕ → Registers
alu_add16 r value =
    let left = hl r in
    let result = left + value in
    let flagged =
      set_flag
        (set_flag (set_flag r CpuFlag.n false) CpuFlag.h
          (ltb 0x0FFF (bit_and left 0x0FFF + bit_and value 0x0FFF)))
        CpuFlag.c (ltb 0xFFFF result) in
    set_hl flagged (u16 result)

-- `alu_daa` holds A as an `i16`, here its 16-bit pattern. After a subtraction it may be negative.
unfoldable pub daa_adjusted : Registers → ℕ
daa_adjusted r =
    if flag r CpuFlag.n
    then (let a = if flag r CpuFlag.h then bit_and (u16 (r.a + 2 ^ 16 - 6)) 0xFF else r.a in
        if flag r CpuFlag.c then u16 (a + 2 ^ 16 - 0x60) else a)
    else (let a = if flag r CpuFlag.h || ltb 9 (bit_and r.a 0x0F) then r.a + 0x06 else r.a in
        if flag r CpuFlag.c || ltb 0x9F a then a + 0x60 else a)

-- `a >= 0x100` at `i16`: a pattern from 2^15 on is negative.
unfoldable pub alu_daa : Registers → Registers
alu_daa r =
    let a = daa_adjusted r in
    let flagged =
      set_flag (set_flag (record r { a = u8 a }) CpuFlag.z (u8 a == 0)) CpuFlag.h false in
    if in_range 0x100 0x7FFF a then set_flag flagged CpuFlag.c true else flagged

-- The four rotations and the shifts end alike: Z by the result, N and H clear, C by a bit.
abbrev pub shifted : Registers → ℕ → ℕ → ℕ × Registers
shifted r result carry = (result, set_flags r (result == 0) false false (not (carry == 0)))

unfoldable pub alu_rlc : Registers → ℕ → ℕ × Registers
alu_rlc r value = let carry = shr value 7 in shifted r (bit_or (u8 (shl value 1)) carry) carry

unfoldable pub alu_rrc : Registers → ℕ → ℕ × Registers
alu_rrc r value =
    let carry = bit_and value 1 in shifted r (bit_or (shr value 1) (u8 (shl carry 7))) carry

unfoldable pub alu_rl : Registers → ℕ → ℕ × Registers
alu_rl r value =
    let old_carry = bit_of (flag r CpuFlag.c) in
    shifted r (bit_or (u8 (shl value 1)) old_carry) (shr value 7)

unfoldable pub alu_rr : Registers → ℕ → ℕ × Registers
alu_rr r value =
    let old_carry = bit_of (flag r CpuFlag.c) in
    shifted r (bit_or (shr value 1) (u8 (shl old_carry 7))) (bit_and value 1)

unfoldable pub alu_sla : Registers → ℕ → ℕ × Registers
alu_sla r value = shifted r (u8 (shl value 1)) (shr value 7)

unfoldable pub alu_sra : Registers → ℕ → ℕ × Registers
alu_sra r value = shifted r (bit_or (shr value 1) (bit_and value 0x80)) (bit_and value 1)

unfoldable pub alu_srl : Registers → ℕ → ℕ × Registers
alu_srl r value = shifted r (shr value 1) (bit_and value 1)

unfoldable pub alu_swap : Registers → ℕ → ℕ × Registers
alu_swap r value = shifted r (bit_or (shr value 4) (u8 (shl value 4))) 0

unfoldable pub alu_bit : Registers → ℕ → ℕ → Registers
alu_bit r value bit =
    let result = bit_and value (u8 (shl 1 bit)) in
    set_flag (set_flag (set_flag r CpuFlag.z (result == 0)) CpuFlag.n false) CpuFlag.h true
