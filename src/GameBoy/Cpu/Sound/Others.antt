-- ===== src/GameBoy/Cpu/Sound/Others.antt =====
-- The instructions of no common shape keep the processor good.
use gb_os.Base.{ℕ, ◌<◌, bit_and, bit_or, true, arith}
use gb_os.Base.{◌==◌, in_range, if_both}
use gb_os.Base.Word.{shr}
use gb_os.GameBoy.Register.{hl}
use gb_os.GameBoy.Register.Fields
use gb_os.GameBoy.Register.Fields.{set_a-IsValid, set_pc-IsValid}
use gb_os.GameBoy.Alu.Valid.{alu_bit-IsValid}
use gb_os.GameBoy.Cpu.{Bus, Cpu, fetchbyte, fetchword, pop, write_wide}
use gb_os.GameBoy.Cpu.Prefixed.{cb_operand, cb_operate, cb_store, execute_cb}
use gb_os.GameBoy.Cpu.Prefixed.Valid.{cb_operate-IsByteResult}
use gb_os.GameBoy.Cpu.Sound.{
  IsSound, IsGood, write_wide-Good, fetchbyte-IsGood, fetchword-IsGood, pop-IsGood,
}
use gb_os.GameBoy.Cpu.Sound.Actions.{IsStep, Keeps, IsTicks}

module _ (bus : Bus) (Good : bus.State → Type 0) (sound : IsSound bus Good) where
  pub stop-Keeps : Keeps bus Good (λ c. (4, record c { mmu = bus.switch_speed c.mmu }))
  stop-Keeps c h = record {
    ticks = omega arith;
    after = record { good = sound.switch_speed-Good c.mmu h.good; valid = h.valid };
  }

  pub store_sp-Keeps : Keeps bus Good (λ c.
      (let (a, c') = fetchword bus c in
        (20, record c' { mmu = write_wide bus c'.mmu a c'.reg.sp })))
  store_sp-Keeps c h =
      let (lt, g) = fetchword-IsGood bus Good sound c h in
      record {
        ticks = omega arith;
        after = record {
          good = write_wide-Good bus Good sound _ _ _ g.good g.valid.sp_word;
          valid = g.valid;
        };
      }

  pub di-Keeps : Keeps bus Good (λ c. (4, record c { setdi = 2 }))
  di-Keeps c h = record { ticks = omega arith; after = record { good = h.good; valid = h.valid } }

  pub ei-Keeps : Keeps bus Good (λ c. (4, record c { setei = 2 }))
  ei-Keeps c h = record { ticks = omega arith; after = record { good = h.good; valid = h.valid } }

  pub reti-Keeps : Keeps bus Good (λ c.
      (let (v, c') = pop bus c in (16, record c' { reg = record (c'.reg) { pc = v }; ime = true })))
  reti-Keeps c h =
      let (lt, g) = pop-IsGood bus Good sound c h in
      record {
        ticks = omega arith;
        after = record { good = g.good; valid = set_pc-IsValid _ lt g.valid };
      }

  pub store_word_addr-Keeps :
      Keeps bus Good
        (λ c. (let (a, c') = fetchword bus c in (16, record c' { mmu = bus.wb c'.mmu a c'.reg.a })))
  store_word_addr-Keeps c h =
      let (lt, g) = fetchword-IsGood bus Good sound c h in
      record {
        ticks = omega arith;
        after = record { good = sound.wb-Good _ _ _ g.good g.valid.a_byte; valid = g.valid };
      }

  pub store_high-Keeps : Keeps bus Good (λ c.
      (let (v, c') = fetchbyte bus c in
        (12, record c' { mmu = bus.wb c'.mmu (bit_or 0xFF00 v) c'.reg.a })))
  store_high-Keeps c h =
      let (lt, g) = fetchbyte-IsGood bus Good sound c h in
      record {
        ticks = omega arith;
        after = record { good = sound.wb-Good _ _ _ g.good g.valid.a_byte; valid = g.valid };
      }

  pub store_byte-Keeps : Keeps bus Good (λ c.
      (let (v, c') = fetchbyte bus c in (12, record c' { mmu = bus.wb c'.mmu (hl c'.reg) v })))
  store_byte-Keeps c h =
      let (lt, g) = fetchbyte-IsGood bus Good sound c h in
      record {
        ticks = omega arith;
        after = record { good = sound.wb-Good _ _ _ g.good lt; valid = g.valid };
      }

  -- A good processor that reads a byte at an address into A.
  loaded-IsGood :
      (c : Cpu bus) (a : ℕ)
      → IsGood bus Good c
      → IsGood bus Good
          (record c { reg = record (c.reg) { a = (bus.rb c.mmu a).0 }; mmu = (bus.rb c.mmu a).1 })
  loaded-IsGood c a g = record {
    good = sound.rb-Good c.mmu a g.good;
    valid = set_a-IsValid _ (sound.rb-lt c.mmu a g.good) g.valid;
  }

  pub load_high-Keeps : Keeps bus Good (λ c.
      (let (n, c1) = fetchbyte bus c in
        let (v, s) = bus.rb c1.mmu (bit_or 0xFF00 n) in
        (12, record c1 { reg = record (c1.reg) { a = v }; mmu = s })))
  load_high-Keeps c h = record {
    ticks = omega arith;
    after = loaded-IsGood _ _ (fetchbyte-IsGood bus Good sound c h).1;
  }

  pub load_word_addr-Keeps : Keeps bus Good (λ c.
      (let (a, c1) = fetchword bus c in
        let (v, s) = bus.rb c1.mmu a in
        (16, record c1 { reg = record (c1.reg) { a = v }; mmu = s })))
  load_word_addr-Keeps c h = record {
    ticks = omega arith;
    after = loaded-IsGood _ _ (fetchword-IsGood bus Good sound c h).1;
  }

  -- The operand of a prefixed instruction.
  record IsOperand (r : (ℕ × ℕ) × Cpu bus) : Type 0 where
    byte : r.0.0 < 256
    ticks : IsTicks r.0.1
    after : IsGood bus Good r.1

  cb_operand-IsOperand :
      (reg_idx : ℕ) (c : Cpu bus) → IsGood bus Good c → IsOperand (cb_operand bus reg_idx c)
  unfolding cb_operand
  cb_operand-IsOperand reg_idx c h =
      let P = IsOperand in
      if_both P (reg_idx == 0) _ _
        (record { byte = h.valid.b_byte; ticks = omega arith; after = h })
        (if_both P (reg_idx == 1) _ _
          (record { byte = h.valid.c_byte; ticks = omega arith; after = h })
          (if_both P (reg_idx == 2) _ _
            (record { byte = h.valid.d_byte; ticks = omega arith; after = h })
            (if_both P (reg_idx == 3) _ _
              (record { byte = h.valid.e_byte; ticks = omega arith; after = h })
              (if_both P (reg_idx == 4) _ _
                (record { byte = h.valid.h_byte; ticks = omega arith; after = h })
                (if_both P (reg_idx == 5) _ _
                  (record { byte = h.valid.l_byte; ticks = omega arith; after = h })
                  (if_both P (reg_idx == 6) _ _
                    (record {
                      byte = sound.rb-lt c.mmu (hl c.reg) h.good;
                      ticks = omega arith;
                      after = record {
                        good = sound.rb-Good c.mmu (hl c.reg) h.good;
                        valid = h.valid;
                      };
                    })
                    (record { byte = h.valid.a_byte; ticks = omega arith; after = h })))))))

  cb_store-IsGood :
      (reg_idx : ℕ) (c : Cpu bus) (value : ℕ)
      → IsGood bus Good c
      → value < 256
      → IsGood bus Good (cb_store bus reg_idx c value)
  unfolding cb_store
  cb_store-IsGood reg_idx c value h lt =
      let P = IsGood bus Good in
      if_both P (reg_idx == 0) _ _
        (record { good = h.good; valid = Fields.set_b-IsValid value lt h.valid })
        (if_both P (reg_idx == 1) _ _
          (record { good = h.good; valid = Fields.set_c-IsValid value lt h.valid })
          (if_both P (reg_idx == 2) _ _
            (record { good = h.good; valid = Fields.set_d-IsValid value lt h.valid })
            (if_both P (reg_idx == 3) _ _
              (record { good = h.good; valid = Fields.set_e-IsValid value lt h.valid })
              (if_both P (reg_idx == 4) _ _
                (record { good = h.good; valid = Fields.set_h-IsValid value lt h.valid })
                (if_both P (reg_idx == 5) _ _
                  (record { good = h.good; valid = Fields.set_l-IsValid value lt h.valid })
                  (if_both P (reg_idx == 6) _ _
                    (record {
                      good = sound.wb-Good c.mmu (hl c.reg) value h.good lt;
                      valid = h.valid;
                    })
                    (record { good = h.good; valid = set_a-IsValid value lt h.valid })))))))

  pub execute_cb-Keeps : Keeps bus Good (execute_cb bus)
  unfolding execute_cb
  execute_cb-Keeps c h =
      let fetched = (fetchbyte bus c).1 in
      let opcode = (fetchbyte bus c).0 in
      let reg_idx = bit_and opcode 0x07 in
      let op_type = shr opcode 3 in
      let operand = cb_operand-IsOperand reg_idx fetched (fetchbyte-IsGood bus Good sound c h).1 in
      let read = (cb_operand bus reg_idx fetched).1 in
      let value = (cb_operand bus reg_idx fetched).0.0 in
      let (result_lt, result_valid) =
        cb_operate-IsByteResult op_type read.reg value operand.after.valid operand.byte in
      let reg' = (cb_operate op_type read.reg value).1 in
      if_both (IsStep bus Good) (in_range 8 15 op_type) _ _
        (record {
          ticks = operand.ticks;
          after = record {
            good = operand.after.good;
            valid = alu_bit-IsValid read.reg value _ operand.after.valid;
          };
        })
        (record {
          ticks = operand.ticks;
          after =
              cb_store-IsGood reg_idx (record read { reg = reg' }) _
                (record { good = operand.after.good; valid = result_valid }) result_lt;
        })
