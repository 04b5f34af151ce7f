-- ===== src/GameBoy/Alu/Valid.antt =====
-- Every operation keeps the register file valid, and gives a byte.
use gb_os.Base.{ℕ, ◌<◌, bit_and, Bool, false, arith}
use gb_os.Base.{◌==◌, if_both}
use gb_os.Base.Word.{u8, shl, shr}
use gb_os.Base.Bits.{and-le, or-lt, xor-lt}
use gb_os.GameBoy.Register.{CpuFlag, Registers, flag, set_flag, IsValid}
use gb_os.GameBoy.Register.Flags.{set_flag-IsValid}
use gb_os.GameBoy.Register.Pairs.{set_hl-IsValid}
use gb_os.GameBoy.Alu.{
  set_flags, bit_of, shifted, alu_add, alu_sub, alu_and, alu_or, alu_xor, alu_cp, alu_inc, alu_dec,
  alu_add16, alu_daa, daa_adjusted, alu_rlc, alu_rrc, alu_rl, alu_rr, alu_sla, alu_sra, alu_srl,
  alu_swap, alu_bit,
}

-- A result byte and valid registers.
abbrev pub IsByteResult : ℕ × Registers → Type 0
IsByteResult (v, r) = (v < 256) × IsValid r

set_flags-IsValid :
    (r : Registers) (zero negative half carry : Bool)
    → IsValid r
    → IsValid (set_flags r zero negative half carry)
set_flags-IsValid r zero negative half carry v = set_flag-IsValid CpuFlag.c carry (
    set_flag-IsValid CpuFlag.h half
      (set_flag-IsValid CpuFlag.n negative (set_flag-IsValid CpuFlag.z zero v)))

set_a-IsValid : (r : Registers) (v : ℕ) → v < 256 → IsValid r → IsValid (record r { a = v })
set_a-IsValid r v lt h = ground arith

bit_of-lt : (b : Bool) → bit_of b < 2
bit_of-lt b = ground arith

module _ (r : Registers) (value : ℕ) (v : IsValid r) (lt : value < 256) where
  pub alu_add-IsValid : (with_carry : Bool) → IsValid (alu_add r value with_carry)
  unfolding alu_add
  alu_add-IsValid with_carry = set_flags-IsValid _ _ _ _ _ (set_a-IsValid r _ (omega arith) v)

  pub alu_sub-IsValid : (with_carry : Bool) → IsValid (alu_sub r value with_carry)
  unfolding alu_sub
  alu_sub-IsValid with_carry = set_flags-IsValid _ _ _ _ _ (set_a-IsValid r _ (omega arith) v)

  pub alu_and-IsValid : IsValid (alu_and r value)
  unfolding alu_and
  alu_and-IsValid =
      set_flags-IsValid _ _ _ _ _
        (set_a-IsValid r _ (omega (arith, v.a_byte, and-le r.a r.a value (omega arith))) v)

  pub alu_or-IsValid : IsValid (alu_or r value)
  unfolding alu_or
  alu_or-IsValid = set_flags-IsValid _ _ _ _ _ (set_a-IsValid r _ (or-lt 8 r.a value v.a_byte lt) v)

  pub alu_xor-IsValid : IsValid (alu_xor r value)
  unfolding alu_xor
  alu_xor-IsValid =
      set_flags-IsValid _ _ _ _ _ (set_a-IsValid r _ (xor-lt 8 r.a value v.a_byte lt) v)

  pub alu_cp-IsValid : IsValid (alu_cp r value)
  unfolding alu_cp
  alu_cp-IsValid = set_flags-IsValid _ _ _ _ _ v

  pub alu_inc-IsByteResult : IsByteResult (alu_inc r value)
  unfolding alu_inc
  alu_inc-IsByteResult =
      (omega arith, set_flag-IsValid _ _ (set_flag-IsValid _ _ (set_flag-IsValid _ _ v)))

  pub alu_dec-IsByteResult : IsByteResult (alu_dec r value)
  unfolding alu_dec
  alu_dec-IsByteResult =
      (omega arith, set_flag-IsValid _ _ (set_flag-IsValid _ _ (set_flag-IsValid _ _ v)))

  shifted-IsByteResult : (result carry : ℕ) → result < 256 → IsByteResult (shifted r result carry)
  shifted-IsByteResult result carry small = (small, set_flags-IsValid r _ _ _ _ v)

  pub alu_rlc-IsByteResult : IsByteResult (alu_rlc r value)
  unfolding alu_rlc
  alu_rlc-IsByteResult =
      shifted-IsByteResult _ _
        (or-lt 8 (u8 (shl value 1)) (shr value 7) (omega arith) (omega arith))

  pub alu_rrc-IsByteResult : IsByteResult (alu_rrc r value)
  unfolding alu_rrc
  alu_rrc-IsByteResult =
      shifted-IsByteResult _ _
        (or-lt 8 (shr value 1) (u8 (shl (bit_and value 1) 7)) (omega arith) (omega arith))

  pub alu_rl-IsByteResult : IsByteResult (alu_rl r value)
  unfolding alu_rl
  alu_rl-IsByteResult = shifted-IsByteResult _ _ (
      or-lt 8 (u8 (shl value 1)) (bit_of (flag r CpuFlag.c)) (omega arith)
        (omega (arith, bit_of-lt (flag r CpuFlag.c))))

  pub alu_rr-IsByteResult : IsByteResult (alu_rr r value)
  unfolding alu_rr
  alu_rr-IsByteResult =
      shifted-IsByteResult _ _
        (or-lt 8 (shr value 1) (u8 (shl (bit_of (flag r CpuFlag.c)) 7)) (omega arith) (omega arith))

  pub alu_sla-IsByteResult : IsByteResult (alu_sla r value)
  unfolding alu_sla
  alu_sla-IsByteResult = shifted-IsByteResult _ _ (omega arith)

  pub alu_sra-IsByteResult : IsByteResult (alu_sra r value)
  unfolding alu_sra
  alu_sra-IsByteResult = shifted-IsByteResult _ _ (
      or-lt 8 (shr value 1) (bit_and value 0x80) (omega arith)
        (omega (arith, and-le value value 0x80 (omega arith))))

  pub alu_srl-IsByteResult : IsByteResult (alu_srl r value)
  unfolding alu_srl
  alu_srl-IsByteResult = shifted-IsByteResult _ _ (omega arith)

  pub alu_swap-IsByteResult : IsByteResult (alu_swap r value)
  unfolding alu_swap
  alu_swap-IsByteResult =
      shifted-IsByteResult _ 0
        (or-lt 8 (shr value 4) (u8 (shl value 4)) (omega arith) (omega arith))

pub alu_bit-IsValid : (r : Registers) (value bit : ℕ) → IsValid r → IsValid (alu_bit r value bit)
unfolding alu_bit
alu_bit-IsValid r value bit v = set_flag-IsValid _ _ (set_flag-IsValid _ _ (set_flag-IsValid _ _ v))

pub alu_add16-IsValid : (r : Registers) (value : ℕ) → IsValid r → IsValid (alu_add16 r value)
unfolding alu_add16
alu_add16-IsValid r value v =
    set_hl-IsValid _ (set_flag-IsValid _ _ (set_flag-IsValid _ _ (set_flag-IsValid _ _ v)))

pub alu_daa-IsValid : (r : Registers) → IsValid r → IsValid (alu_daa r)
unfolding alu_daa
alu_daa-IsValid r v = if_both IsValid _ _ _ (set_flag-IsValid _ _ flagged) flagged
  where
    flagged : IsValid (
        set_flag
          (set_flag (record r { a = u8 (daa_adjusted r) }) CpuFlag.z (u8 (daa_adjusted r) == 0))
          CpuFlag.h
          false)
    flagged = set_flag-IsValid _ _ (set_flag-IsValid _ _ (set_a-IsValid r _ (omega arith) v))
