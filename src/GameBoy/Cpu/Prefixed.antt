-- ===== src/GameBoy/Cpu/Prefixed.antt =====
-- The instructions behind the prefix 0xCB, `execute_cb` of kernel/src/gameboy/cpu.rs.
pub mod Valid
use gb_os.Base.{ℕ, ◌+◌, ◌-◌, ◌*◌, bit_and, bit_or}
use gb_os.Base.{◌==◌, in_range, if◌then◌else◌}
use gb_os.Base.Word.{u8, not8, shl, shr}
use gb_os.GameBoy.Register.{Registers, hl}
use gb_os.GameBoy.Alu.{
  alu_rlc, alu_rrc, alu_rl, alu_rr, alu_sla, alu_sra, alu_swap, alu_srl, alu_bit,
}
use gb_os.GameBoy.Cpu.{Bus, Cpu, fetchbyte}

-- The `match` on `op_type`, but for the bit tests of 8 to 15. It is at most 31.
unfoldable pub cb_operate : ℕ → Registers → ℕ → ℕ × Registers
cb_operate op_type r value =
    if op_type == 0
    then alu_rlc r value
    else if op_type == 1
    then alu_rrc r value
    else if op_type == 2
    then alu_rl r value
    else if op_type == 3
    then alu_rr r value
    else if op_type == 4
    then alu_sla r value
    else if op_type == 5
    then alu_sra r value
    else if op_type == 6
    then alu_swap r value
    else if op_type == 7
    then alu_srl r value
    else if in_range 16 23 op_type
    then (bit_and value (not8 (u8 (shl 1 (op_type - 16)))), r)
    else (bit_or value (u8 (shl 1 (op_type - 24))), r)

module _ (bus : Bus) where
  -- The operand and the cycles. The index is at most 7.
  unfoldable pub cb_operand : ℕ → Cpu bus → (ℕ × ℕ) × Cpu bus
  cb_operand reg_idx c =
      let (byte, s) = bus.rb c.mmu (hl c.reg) in
      if reg_idx == 0
      then ((c.reg.b, 8), c)
      else if reg_idx == 1
      then ((c.reg.c, 8), c)
      else if reg_idx == 2
      then ((c.reg.d, 8), c)
      else if reg_idx == 3
      then ((c.reg.e, 8), c)
      else if reg_idx == 4
      then ((c.reg.h, 8), c)
      else if reg_idx == 5
      then ((c.reg.l, 8), c)
      else if reg_idx == 6
      then ((byte, 16), record c { mmu = s })
      else ((c.reg.a, 8), c)

  unfoldable pub cb_store : ℕ → Cpu bus → ℕ → Cpu bus
  cb_store reg_idx c value =
      if reg_idx == 0
      then record c { reg = record (c.reg) { b = value } }
      else if reg_idx == 1
      then record c { reg = record (c.reg) { c = value } }
      else if reg_idx == 2
      then record c { reg = record (c.reg) { d = value } }
      else if reg_idx == 3
      then record c { reg = record (c.reg) { e = value } }
      else if reg_idx == 4
      then record c { reg = record (c.reg) { h = value } }
      else if reg_idx == 5
      then record c { reg = record (c.reg) { l = value } }
      else if reg_idx == 6
      then record c { mmu = bus.wb c.mmu (hl c.reg) value }
      else record c { reg = record (c.reg) { a = value } }

  unfoldable pub execute_cb : Cpu bus → ℕ × Cpu bus
  execute_cb c =
      let (opcode, fetched) = fetchbyte bus c in
      let reg_idx = bit_and opcode 0x07 in
      let op_type = shr opcode 3 in
      let (operand, read) = cb_operand reg_idx fetched in
      let (value, cycles) = operand in
      let (result, reg') = cb_operate op_type read.reg value in
      if in_range 8 15 op_type
      then (cycles, record read { reg = alu_bit read.reg value (op_type - 8) })
      else (cycles, cb_store reg_idx (record read { reg = reg' }) result)
