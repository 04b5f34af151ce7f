-- ===== src/GameBoy/Cpu/Prefixed/Valid.antt =====
-- The operations of the prefixed instructions keep the registers in range.
use gb_os.Base.{ℕ, ◌-◌, ◌<◌, bit_and, bit_or, arith}
use gb_os.Base.{if_both}
use gb_os.Base.Word.{u8, shl}
use gb_os.Base.Bits.{and-le, or-lt}
use gb_os.GameBoy.Register.{Registers, IsValid}
use gb_os.GameBoy.Alu.{}
use gb_os.GameBoy.Alu.Valid
use gb_os.GameBoy.Alu.Valid.{IsByteResult, alu_bit-IsValid}
use gb_os.GameBoy.Cpu.Prefixed.{cb_operate}

-- Clearing and setting a bit keep a byte.
reset-lt : (value mask : ℕ) → value < 256 → bit_and value mask < 256
reset-lt value mask lt = omega (arith, and-le value value mask)

set-lt : (value bit : ℕ) → value < 256 → bit_or value (u8 (shl 1 bit)) < 256
set-lt value bit lt = or-lt 8 value (u8 (shl 1 bit)) lt (omega arith)

pub cb_operate-IsByteResult :
    (op_type : ℕ) (r : Registers) (value : ℕ)
    → IsValid r
    → value < 256
    → IsByteResult (cb_operate op_type r value)
unfolding cb_operate
cb_operate-IsByteResult op_type r value v lt =
    let P = IsByteResult in
    if_both P _ _ _ (Valid.alu_rlc-IsByteResult r value v lt) (
      if_both P _ _ _ (Valid.alu_rrc-IsByteResult r value v lt) (
        if_both P _ _ _ (Valid.alu_rl-IsByteResult r value v lt) (
          if_both P _ _ _ (Valid.alu_rr-IsByteResult r value v lt) (
            if_both P _ _ _ (Valid.alu_sla-IsByteResult r value v lt) (
              if_both P _ _ _ (Valid.alu_sra-IsByteResult r value v lt) (
                if_both P _ _ _ (Valid.alu_swap-IsByteResult r value v lt) (
                  if_both P _ _ _ (Valid.alu_srl-IsByteResult r value v lt) (
                    if_both P _ _ _ (reset-lt value _ lt, v)
                      (set-lt value (op_type - 24) lt, v)))))))))
