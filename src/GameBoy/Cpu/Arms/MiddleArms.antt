-- ===== src/GameBoy/Cpu/Arms/MiddleArms.antt =====
-- The table `middle` keeps the processor good.
use gb_os.Base.{arith}
use gb_os.GameBoy.Register.{hl}
use gb_os.GameBoy.Register.Flags.{set_flag-IsValid}
use gb_os.GameBoy.Register.Fields
use gb_os.GameBoy.Register.Pairs.{set_hl-IsValid}
use gb_os.GameBoy.Alu.Valid.{
  alu_add16-IsValid, alu_daa-IsValid, alu_inc-IsByteResult, alu_dec-IsByteResult,
}
use gb_os.GameBoy.Cpu.{Bus}
use gb_os.GameBoy.Cpu.Opcodes.Middle.{middle}
use gb_os.GameBoy.Cpu.Sound.{IsSound}
use gb_os.GameBoy.Cpu.Sound.Actions.{
  u16-lt, wrapping_sub16-lt, regs-Keeps, read_at-Keeps, write_at-Keeps, change_at-Keeps,
  byte_to-Keeps, word_to-Keeps, when-Keeps, cpu_jr-Keeps, skip-Keeps,
}
use gb_os.GameBoy.Cpu.Sound.Others.{store_byte-Keeps}
use gb_os.GameBoy.Cpu.Arms.{AllArms, ◌&◌, a-IsValid, h-IsValid, l-IsValid}

module _ (bus : Bus) (Good : bus.State → Type 0) (sound : IsSound bus Good) where
  pub middle-AllArms : AllArms bus Good (middle bus)
  unfolding middle
  middle-AllArms =
      when-Keeps bus Good sound _ _ _ (cpu_jr-Keeps bus Good sound 12 (omega arith))
        (skip-Keeps bus Good sound 8 1 (omega arith))
      & word_to-Keeps bus Good sound 12 _ (omega arith) (λ r v h lt. set_hl-IsValid v h)
      & write_at-Keeps bus Good sound 8 hl _ _ (omega arith) (λ r h. h.a_byte)
          (λ r h. set_hl-IsValid _ h)
      & regs-Keeps bus Good sound 8 _ (omega arith) (λ r h. set_hl-IsValid _ h)
      & regs-Keeps bus Good sound 4 _ (omega arith)
          (λ r h. h-IsValid _ (alu_inc-IsByteResult r r.h h h.h_byte))
      & regs-Keeps bus Good sound 4 _ (omega arith)
          (λ r h. h-IsValid _ (alu_dec-IsByteResult r r.h h h.h_byte))
      & byte_to-Keeps bus Good sound 8 _ (omega arith) (λ r v h lt. Fields.set_h-IsValid v lt h)
      & regs-Keeps bus Good sound 4 _ (omega arith) alu_daa-IsValid
      & when-Keeps bus Good sound _ _ _ (cpu_jr-Keeps bus Good sound 12 (omega arith))
          (skip-Keeps bus Good sound 8 1 (omega arith))
      & regs-Keeps bus Good sound 8 _ (omega arith) (λ r h. alu_add16-IsValid r _ h)
      & read_at-Keeps bus Good sound 8 hl _ (omega arith)
          (λ r v h lt. set_hl-IsValid _ (Fields.set_a-IsValid v lt h))
      & regs-Keeps bus Good sound 8 _ (omega arith) (λ r h. set_hl-IsValid _ h)
      & regs-Keeps bus Good sound 4 _ (omega arith)
          (λ r h. l-IsValid _ (alu_inc-IsByteResult r r.l h h.l_byte))
      & regs-Keeps bus Good sound 4 _ (omega arith)
          (λ r h. l-IsValid _ (alu_dec-IsByteResult r r.l h h.l_byte))
      & byte_to-Keeps bus Good sound 8 _ (omega arith) (λ r v h lt. Fields.set_l-IsValid v lt h)
      & regs-Keeps bus Good sound 4 _ (omega arith) (λ r h.
        set_flag-IsValid _ _ (set_flag-IsValid _ _ (Fields.set_a-IsValid _ (omega arith) h)))
      & when-Keeps bus Good sound _ _ _ (cpu_jr-Keeps bus Good sound 12 (omega arith))
          (skip-Keeps bus Good sound 8 1 (omega arith))
      & word_to-Keeps bus Good sound 12 _ (omega arith) (λ r v h lt. Fields.set_sp-IsValid v lt h)
      & write_at-Keeps bus Good sound 8 hl _ _ (omega arith) (λ r h. h.a_byte)
          (λ r h. set_hl-IsValid _ h)
      & regs-Keeps bus Good sound 8 _ (omega arith) (λ r h. Fields.set_sp-IsValid _ (u16-lt _) h)
      & change_at-Keeps bus Good sound 12 _ (omega arith) alu_inc-IsByteResult
      & change_at-Keeps bus Good sound 12 _ (omega arith) alu_dec-IsByteResult
      & store_byte-Keeps bus Good sound
      & regs-Keeps bus Good sound 4 _ (omega arith)
          (λ r h. set_flag-IsValid _ _ (set_flag-IsValid _ _ (set_flag-IsValid _ _ (h))))
      & when-Keeps bus Good sound _ _ _ (cpu_jr-Keeps bus Good sound 12 (omega arith))
          (skip-Keeps bus Good sound 8 1 (omega arith))
      & regs-Keeps bus Good sound 8 _ (omega arith) (λ r h. alu_add16-IsValid r _ h)
      & read_at-Keeps bus Good sound 8 hl _ (omega arith)
          (λ r v h lt. set_hl-IsValid _ (Fields.set_a-IsValid v lt h))
      & regs-Keeps bus Good sound 8 _ (omega arith)
          (λ r h. Fields.set_sp-IsValid _ (wrapping_sub16-lt _ _) h)
      & regs-Keeps bus Good sound 4 _ (omega arith)
          (λ r h. a-IsValid _ (alu_inc-IsByteResult r r.a h h.a_byte))
      & regs-Keeps bus Good sound 4 _ (omega arith)
          (λ r h. a-IsValid _ (alu_dec-IsByteResult r r.a h h.a_byte))
      & byte_to-Keeps bus Good sound 8 _ (omega arith) (λ r v h lt. Fields.set_a-IsValid v lt h)
      & regs-Keeps bus Good sound 4 _ (omega arith)
          (λ r h. set_flag-IsValid _ _ (set_flag-IsValid _ _ (set_flag-IsValid _ _ (h))))
      & tt
