-- ===== src/GameBoy/Register/Fields.antt =====
-- A register that is given a value of its width keeps the register file valid.
use gb_os.Base.{ℕ, ◌<◌, arith}
use gb_os.GameBoy.Register.{Registers, IsValid}

pub set_a-IsValid : {r : Registers} (v : ℕ) → v < 256 → IsValid r → IsValid (record r { a = v })
set_a-IsValid v lt h = ground arith

pub set_b-IsValid : {r : Registers} (v : ℕ) → v < 256 → IsValid r → IsValid (record r { b = v })
set_b-IsValid v lt h = ground arith

pub set_c-IsValid : {r : Registers} (v : ℕ) → v < 256 → IsValid r → IsValid (record r { c = v })
set_c-IsValid v lt h = ground arith

pub set_d-IsValid : {r : Registers} (v : ℕ) → v < 256 → IsValid r → IsValid (record r { d = v })
set_d-IsValid v lt h = ground arith

pub set_e-IsValid : {r : Registers} (v : ℕ) → v < 256 → IsValid r → IsValid (record r { e = v })
set_e-IsValid v lt h = ground arith

pub set_h-IsValid : {r : Registers} (v : ℕ) → v < 256 → IsValid r → IsValid (record r { h = v })
set_h-IsValid v lt h = ground arith

pub set_l-IsValid : {r : Registers} (v : ℕ) → v < 256 → IsValid r → IsValid (record r { l = v })
set_l-IsValid v lt h = ground arith

pub set_sp-IsValid : {r : Registers} (v : ℕ) → v < 65536 → IsValid r → IsValid (record r { sp = v })
set_sp-IsValid v lt h = ground arith

pub set_pc-IsValid : {r : Registers} (v : ℕ) → v < 65536 → IsValid r → IsValid (record r { pc = v })
set_pc-IsValid v lt h = ground arith
