-- ===== src/GameBoy/Cpu/Execute/Decode.antt =====
-- The regular part of the instruction set: an opcode's fields name its operands.
use gb_os.Base.{ℕ, ◌+◌, ◌*◌, ◌≡◌, refl, ◌∙◌, ap, true, false}
use gb_os.GameBoy.Register.{Registers, hl}
use gb_os.GameBoy.Alu.{alu_add, alu_sub, alu_and, alu_xor, alu_or, alu_cp}
use gb_os.GameBoy.Cpu.{Bus, Cpu, fetchbyte}
use gb_os.GameBoy.Cpu.Action.{find_arm, regs, read_at, write_at, halt}
use gb_os.GameBoy.Cpu.Opcodes.Loads.{loads}
use gb_os.GameBoy.Cpu.Opcodes.Arithmetic.{arithmetic}
use gb_os.GameBoy.Cpu.Execute.{arms_for, execute}

-- The operands in the order of their field: six registers, the byte at HL, and A.
pub data Operand : Type 0 where
  in_b in_c in_d in_e in_h in_l at_hl in_a : Operand

abbrev pub field : Operand → ℕ
field in_b = 0
field in_c = 1
field in_d = 2
field in_e = 3
field in_h = 4
field in_l = 5
field at_hl = 6
field in_a = 7

-- Not both operands are in memory.
abbrev pub OneInRegister : Operand → Operand → Type 0
OneInRegister at_hl at_hl = ⊥
OneInRegister _ _ = Unit {0}

-- An access to memory takes 4 ticks more than a register.
abbrev pub access_ticks : Operand → ℕ
access_ticks at_hl = 4
access_ticks _ = 0

pub data Operation : Type 0 where
  add adc sub sbc conj exclusive disj compare : Operation

abbrev pub operation_field : Operation → ℕ
operation_field add = 0
operation_field adc = 1
operation_field sub = 2
operation_field sbc = 3
operation_field conj = 4
operation_field exclusive = 5
operation_field disj = 6
operation_field compare = 7

abbrev pub operate : Operation → Registers → ℕ → Registers
operate add r v = alu_add r v false
operate adc r v = alu_add r v true
operate sub r v = alu_sub r v false
operate sbc r v = alu_sub r v true
operate conj r v = alu_and r v
operate exclusive r v = alu_xor r v
operate disj r v = alu_or r v
operate compare r v = alu_cp r v

module _ (bus : Bus) where
  -- The operand's value, and the state after it is read.
  abbrev pub value_of : Operand → Cpu bus → ℕ × Cpu bus
  value_of in_b c = (c.reg.b, c)
  value_of in_c c = (c.reg.c, c)
  value_of in_d c = (c.reg.d, c)
  value_of in_e c = (c.reg.e, c)
  value_of in_h c = (c.reg.h, c)
  value_of in_l c = (c.reg.l, c)
  value_of at_hl c = let (v, s) = bus.rb c.mmu (hl c.reg) in (v, record c { mmu = s })
  value_of in_a c = (c.reg.a, c)

  abbrev pub store_in : Operand → Cpu bus → ℕ → Cpu bus
  store_in in_b c v = record c { reg = record (c.reg) { b = v } }
  store_in in_c c v = record c { reg = record (c.reg) { c = v } }
  store_in in_d c v = record c { reg = record (c.reg) { d = v } }
  store_in in_e c v = record c { reg = record (c.reg) { e = v } }
  store_in in_h c v = record c { reg = record (c.reg) { h = v } }
  store_in in_l c v = record c { reg = record (c.reg) { l = v } }
  store_in at_hl c v = record c { mmu = bus.wb c.mmu (hl c.reg) v }
  store_in in_a c v = record c { reg = record (c.reg) { a = v } }

  -- The arm of an opcode.
  abbrev arm_at : ℕ → Cpu bus → ℕ × Cpu bus
  arm_at opcode = find_arm bus (arms_for bus opcode) opcode

  abbrev loaded : Operand → Operand → Cpu bus → ℕ × Cpu bus
  loaded to from c =
      let (v, c') = value_of from c in (4 + access_ticks to + access_ticks from, store_in to c' v)

  abbrev operated : Operation → Operand → Cpu bus → ℕ × Cpu bus
  operated op from c =
      let (v, c') = value_of from c in
      (4 + access_ticks from, record c' { reg = operate op c'.reg v })

  execute_arm :
      (c : Cpu bus) (opcode : ℕ)
      → (fetchbyte bus c).0 ≡ opcode
      → execute bus c ≡ arm_at opcode (fetchbyte bus c).1
  unfolding execute
  execute_arm c opcode e = ap (λ k. arm_at k (fetchbyte bus c).1) e

  load_arm :
      (to from : Operand) (c : Cpu bus)
      → OneInRegister to from
      → arm_at (0x40 + 8 * field to + field from) c ≡ loaded to from c
  unfolding arms_for find_arm loads regs read_at write_at halt
  load_arm in_b in_b c h = refl
  load_arm in_b _ c h = refl
  load_arm in_c in_b c h = refl
  load_arm in_c _ c h = refl
  load_arm in_d in_b c h = refl
  load_arm in_d _ c h = refl
  load_arm in_e in_b c h = refl
  load_arm in_e _ c h = refl
  load_arm in_h in_b c h = refl
  load_arm in_h _ c h = refl
  load_arm in_l in_b c h = refl
  load_arm in_l _ c h = refl
  load_arm at_hl at_hl c h = absurd h
  load_arm at_hl _ c h = refl
  load_arm in_a in_b c h = refl
  load_arm in_a _ c h = refl

  operation_arm :
      (op : Operation) (from : Operand) (c : Cpu bus)
      → arm_at (0x80 + 8 * operation_field op + field from) c ≡ operated op from c
  unfolding arms_for find_arm arithmetic regs read_at
  operation_arm add in_b c = refl
  operation_arm add _ c = refl
  operation_arm adc in_b c = refl
  operation_arm adc _ c = refl
  operation_arm sub in_b c = refl
  operation_arm sub _ c = refl
  operation_arm sbc in_b c = refl
  operation_arm sbc _ c = refl
  operation_arm conj in_b c = refl
  operation_arm conj _ c = refl
  operation_arm exclusive in_b c = refl
  operation_arm exclusive _ c = refl
  operation_arm disj in_b c = refl
  operation_arm disj _ c = refl
  operation_arm compare in_b c = refl
  operation_arm compare _ c = refl

  -- Opcodes 0x40 to 0x7F but 0x76 are loads: bits 3 to 5 name the operand that is written, bits 0
  -- to 2 the one that is read, and a load takes 4 ticks and 4 more for an access to memory.
  pub execute_load :
      (to from : Operand) (c : Cpu bus)
      → OneInRegister to from
      → (fetchbyte bus c).0 ≡ 0x40 + 8 * field to + field from
      → execute bus c ≡ (
          let (v, c') = value_of from (fetchbyte bus c).1 in
          (4 + access_ticks to + access_ticks from, store_in to c' v))
  execute_load to from c h e = execute_arm c _ e ∙ load_arm to from (fetchbyte bus c).1 h

  -- Opcodes 0x80 to 0xBF are arithmetic on A: bits 3 to 5 name the operation, bits 0 to 2 the
  -- operand, in 4 ticks and 4 more for an access to memory.
  pub execute_operation :
      (op : Operation) (from : Operand) (c : Cpu bus)
      → (fetchbyte bus c).0 ≡ 0x80 + 8 * operation_field op + field from
      → execute bus c ≡ (
          let (v, c') = value_of from (fetchbyte bus c).1 in
          (4 + access_ticks from, record c' { reg = operate op c'.reg v }))
  execute_operation op from c e = execute_arm c _ e ∙ operation_arm op from (fetchbyte bus c).1
