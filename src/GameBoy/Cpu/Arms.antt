-- ===== src/GameBoy/Cpu/Arms.antt =====
-- Tables of instructions that all keep the processor good.
pub mod LowArms
pub mod MiddleArms
pub mod LoadArms
pub mod ArithmeticArms
pub mod ControlArms
pub mod HighArms
use gb_os.Base.{ℕ, Bool, true, false, List, [], ◌∷◌, ◌==◌, if◌then◌else◌, if_both, arith}
use gb_os.GameBoy.Register.{Registers, IsValid}
use gb_os.GameBoy.Register.Fields
use gb_os.GameBoy.Alu.Valid.{IsByteResult}
use gb_os.GameBoy.Cpu.{Bus, Cpu}
use gb_os.GameBoy.Cpu.Action.{Action, find_arm}
use gb_os.GameBoy.Cpu.Sound.{IsSound, IsGood}
use gb_os.GameBoy.Cpu.Sound.Actions.{IsStep, Keeps}

module _ (bus : Bus) (Good : bus.State → Type 0) where
  abbrev pub AllArms : List (ℕ × Action bus) → Type 0
  AllArms [] = Unit {0}
  AllArms ((key, act) ∷ rest) = Keeps bus Good act × AllArms rest

-- A tuple of proofs, written as the table is.
infixr 5 ◌&◌
pub ◌&◌ : {P Q : Type 0} → P → Q → P × Q
p & q = (p, q)

module _ (bus : Bus) (Good : bus.State → Type 0) where
  pub find_arm-Keeps :
      (arms : List (ℕ × Action bus))
      → AllArms bus Good arms
      → (opcode : ℕ) → Keeps bus Good (find_arm bus arms opcode)
  unfolding find_arm
  find_arm-Keeps [] all opcode c h = record { ticks = omega arith; after = h }
  find_arm-Keeps ((key, act) ∷ rest) all opcode c h =
      chosen (opcode == key) act (find_arm bus rest opcode) all.0 (find_arm-Keeps rest all.1 opcode)
        c h
    where
      chosen :
          (b : Bool) (f g : Action bus)
          → Keeps bus Good f
          → Keeps bus Good g
          → Keeps bus Good (if b then f else g)
      chosen true f g p q = p
      chosen false f g p q = q

-- A register that is given the byte of a result.
pub a-IsValid : (p : ℕ × Registers) → IsByteResult p → IsValid (record (p.1) { a = p.0 })
a-IsValid (v, r) (lt, h) = Fields.set_a-IsValid v lt h

pub b-IsValid : (p : ℕ × Registers) → IsByteResult p → IsValid (record (p.1) { b = p.0 })
b-IsValid (v, r) (lt, h) = Fields.set_b-IsValid v lt h

pub c-IsValid : (p : ℕ × Registers) → IsByteResult p → IsValid (record (p.1) { c = p.0 })
c-IsValid (v, r) (lt, h) = Fields.set_c-IsValid v lt h

pub d-IsValid : (p : ℕ × Registers) → IsByteResult p → IsValid (record (p.1) { d = p.0 })
d-IsValid (v, r) (lt, h) = Fields.set_d-IsValid v lt h

pub e-IsValid : (p : ℕ × Registers) → IsByteResult p → IsValid (record (p.1) { e = p.0 })
e-IsValid (v, r) (lt, h) = Fields.set_e-IsValid v lt h

pub h-IsValid : (p : ℕ × Registers) → IsByteResult p → IsValid (record (p.1) { h = p.0 })
h-IsValid (v, r) (lt, h) = Fields.set_h-IsValid v lt h

pub l-IsValid : (p : ℕ × Registers) → IsByteResult p → IsValid (record (p.1) { l = p.0 })
l-IsValid (v, r) (lt, h) = Fields.set_l-IsValid v lt h
