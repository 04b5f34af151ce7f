-- ===== src/GameBoy/Cpu/Arms/LoadArms.antt =====
-- The table `loads` keeps the processor good.
use gb_os.Base.{arith}
use gb_os.GameBoy.Register.{hl}
use gb_os.GameBoy.Register.Fields
use gb_os.GameBoy.Cpu.{Bus}
use gb_os.GameBoy.Cpu.Opcodes.Loads.{loads}
use gb_os.GameBoy.Cpu.Sound.{IsSound}
use gb_os.GameBoy.Cpu.Sound.Actions.{regs-Keeps, read_at-Keeps, write_at-Keeps, halt-Keeps}
use gb_os.GameBoy.Cpu.Arms.{AllArms, ◌&◌}

module _ (bus : Bus) (Good : bus.State → Type 0) (sound : IsSound bus Good) where
  pub loads-AllArms : AllArms bus Good (loads bus)
  unfolding loads
  loads-AllArms =
      regs-Keeps bus Good sound 4 _ (omega arith) (λ r h. h)
      & regs-Keeps bus Good sound 4 _ (omega arith) (λ r h. Fields.set_b-IsValid _ h.c_byte h)
      & regs-Keeps bus Good sound 4 _ (omega arith) (λ r h. Fields.set_b-IsValid _ h.d_byte h)
      & regs-Keeps bus Good sound 4 _ (omega arith) (λ r h. Fields.set_b-IsValid _ h.e_byte h)
      & regs-Keeps bus Good sound 4 _ (omega arith) (λ r h. Fields.set_b-IsValid _ h.h_byte h)
      & regs-Keeps bus Good sound 4 _ (omega arith) (λ r h. Fields.set_b-IsValid _ h.l_byte h)
      & read_at-Keeps bus Good sound 8 hl _ (omega arith) (λ r v h lt. Fields.set_b-IsValid v lt h)
      & regs-Keeps bus Good sound 4 _ (omega arith) (λ r h. Fields.set_b-IsValid _ h.a_byte h)
      & regs-Keeps bus Good sound 4 _ (omega arith) (λ r h. Fields.set_c-IsValid _ h.b_byte h)
      & regs-Keeps bus Good sound 4 _ (omega arith) (λ r h. h)
      & regs-Keeps bus Good sound 4 _ (omega arith) (λ r h. Fields.set_c-IsValid _ h.d_byte h)
      & regs-Keeps bus Good sound 4 _ (omega arith) (λ r h. Fields.set_c-IsValid _ h.e_byte h)
      & regs-Keeps bus Good sound 4 _ (omega arith) (λ r h. Fields.set_c-IsValid _ h.h_byte h)
      & regs-Keeps bus Good sound 4 _ (omega arith) (λ r h. Fields.set_c-IsValid _ h.l_byte h)
      & read_at-Keeps bus Good sound 8 hl _ (omega arith) (λ r v h lt. Fields.set_c-IsValid v lt h)
      & regs-Keeps bus Good sound 4 _ (omega arith) (λ r h. Fields.set_c-IsValid _ h.a_byte h)
      & regs-Keeps bus Good sound 4 _ (omega arith) (λ r h. Fields.set_d-IsValid _ h.b_byte h)
      & regs-Keeps bus Good sound 4 _ (omega arith) (λ r h. Fields.set_d-IsValid _ h.c_byte h)
      & regs-Keeps bus Good sound 4 _ (omega arith) (λ r h. h)
      & regs-Keeps bus Good sound 4 _ (omega arith) (λ r h. Fields.set_d-IsValid _ h.e_byte h)
      & regs-Keeps bus Good sound 4 _ (omega arith) (λ r h. Fields.set_d-IsValid _ h.h_byte h)
      & regs-Keeps bus Good sound 4 _ (omega arith) (λ r h. Fields.set_d-IsValid _ h.l_byte h)
      & read_at-Keeps bus Good sound 8 hl _ (omega arith) (λ r v h lt. Fields.set_d-IsValid v lt h)
      & regs-Keeps bus Good sound 4 _ (omega arith) (λ r h. Fields.set_d-IsValid _ h.a_byte h)
      & regs-Keeps bus Good sound 4 _ (omega arith) (λ r h. Fields.set_e-IsValid _ h.b_byte h)
      & regs-Keeps bus Good sound 4 _ (omega arith) (λ r h. Fields.set_e-IsValid _ h.c_byte h)
      & regs-Keeps bus Good sound 4 _ (omega arith) (λ r h. Fields.set_e-IsValid _ h.d_byte h)
      & regs-Keeps bus Good sound 4 _ (omega arith) (λ r h. h)
      & regs-Keeps bus Good sound 4 _ (omega arith) (λ r h. Fields.set_e-IsValid _ h.h_byte h)
      & regs-Keeps bus Good sound 4 _ (omega arith) (λ r h. Fields.set_e-IsValid _ h.l_byte h)
      & read_at-Keeps bus Good sound 8 hl _ (omega arith) (λ r v h lt. Fields.set_e-IsValid v lt h)
      & regs-Keeps bus Good sound 4 _ (omega arith) (λ r h. Fields.set_e-IsValid _ h.a_byte h)
      & regs-Keeps bus Good sound 4 _ (omega arith) (λ r h. Fields.set_h-IsValid _ h.b_byte h)
      & regs-Keeps bus Good sound 4 _ (omega arith) (λ r h. Fields.set_h-IsValid _ h.c_byte h)
      & regs-Keeps bus Good sound 4 _ (omega arith) (λ r h. Fields.set_h-IsValid _ h.d_byte h)
      & regs-Keeps bus Good sound 4 _ (omega arith) (λ r h. Fields.set_h-IsValid _ h.e_byte h)
      & regs-Keeps bus Good sound 4 _ (omega arith) (λ r h. h)
      & regs-Keeps bus Good sound 4 _ (omega arith) (λ r h. Fields.set_h-IsValid _ h.l_byte h)
      & read_at-Keeps bus Good sound 8 hl _ (omega arith) (λ r v h lt. Fields.set_h-IsValid v lt h)
      & regs-Keeps bus Good sound 4 _ (omega arith) (λ r h. Fields.set_h-IsValid _ h.a_byte h)
      & regs-Keeps bus Good sound 4 _ (omega arith) (λ r h. Fields.set_l-IsValid _ h.b_byte h)
      & regs-Keeps bus Good sound 4 _ (omega arith) (λ r h. Fields.set_l-IsValid _ h.c_byte h)
      & regs-Keeps bus Good sound 4 _ (omega arith) (λ r h. Fields.set_l-IsValid _ h.d_byte h)
      & regs-Keeps bus Good sound 4 _ (omega arith) (λ r h. Fields.set_l-IsValid _ h.e_byte h)
      & regs-Keeps bus Good sound 4 _ (omega arith) (λ r h. Fields.set_l-IsValid _ h.h_byte h)
      & regs-Keeps bus Good sound 4 _ (omega arith) (λ r h. h)
      & read_at-Keeps bus Good sound 8 hl _ (omega arith) (λ r v h lt. Fields.set_l-IsValid v lt h)
      & regs-Keeps bus Good sound 4 _ (omega arith) (λ r h. Fields.set_l-IsValid _ h.a_byte h)
      & write_at-Keeps bus Good sound 8 hl _ _ (omega arith) (λ r h. h.b_byte) (λ r h. h)
      & write_at-Keeps bus Good sound 8 hl _ _ (omega arith) (λ r h. h.c_byte) (λ r h. h)
      & write_at-Keeps bus Good sound 8 hl _ _ (omega arith) (λ r h. h.d_byte) (λ r h. h)
      & write_at-Keeps bus Good sound 8 hl _ _ (omega arith) (λ r h. h.e_byte) (λ r h. h)
      & write_at-Keeps bus Good sound 8 hl _ _ (omega arith) (λ r h. h.h_byte) (λ r h. h)
      & write_at-Keeps bus Good sound 8 hl _ _ (omega arith) (λ r h. h.l_byte) (λ r h. h)
      & halt-Keeps bus Good sound
      & write_at-Keeps bus Good sound 8 hl _ _ (omega arith) (λ r h. h.a_byte) (λ r h. h)
      & regs-Keeps bus Good sound 4 _ (omega arith) (λ r h. Fields.set_a-IsValid _ h.b_byte h)
      & regs-Keeps bus Good sound 4 _ (omega arith) (λ r h. Fields.set_a-IsValid _ h.c_byte h)
      & regs-Keeps bus Good sound 4 _ (omega arith) (λ r h. Fields.set_a-IsValid _ h.d_byte h)
      & regs-Keeps bus Good sound 4 _ (omega arith) (λ r h. Fields.set_a-IsValid _ h.e_byte h)
      & regs-Keeps bus Good sound 4 _ (omega arith) (λ r h. Fields.set_a-IsValid _ h.h_byte h)
      & regs-Keeps bus Good sound 4 _ (omega arith) (λ r h. Fields.set_a-IsValid _ h.l_byte h)
      & read_at-Keeps bus Good sound 8 hl _ (omega arith) (λ r v h lt. Fields.set_a-IsValid v lt h)
      & regs-Keeps bus Good sound 4 _ (omega arith) (λ r h. h)
      & tt
