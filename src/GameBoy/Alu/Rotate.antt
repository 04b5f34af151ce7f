-- ===== src/GameBoy/Alu/Rotate.antt =====
-- Rotations undo one another.
use gb_os.Base.{ℕ, ◌<◌, ◌≡◌, refl, ◌∙◌, bit_and, bit_or, Bool, true, false, not}
use gb_os.Base.{◌==◌}
use gb_os.Base.Word.{u8, shl, shr}
use gb_os.Base.Table.{every_below, byte_equation, byte_test}
use gb_os.GameBoy.Register.{CpuFlag, Registers, flag, IsValid}
use gb_os.GameBoy.Alu.{bit_of, set_flags, alu_rlc, alu_rrc, alu_rl, alu_rr, alu_swap}
use gb_os.GameBoy.Alu.Flags.{set_flags_lem}

abbrev left : Bool → ℕ → ℕ
left old v = bit_or (u8 (shl v 1)) (bit_of old)

abbrev right : Bool → ℕ → ℕ
right old v = bit_or (shr v 1) (u8 (shl (bit_of old) 7))

abbrev top : ℕ → Bool
top v = not (shr v 7 == 0)

abbrev bottom : ℕ → Bool
bottom v = not (bit_and v 1 == 0)

abbrev circular_left : ℕ → ℕ
circular_left v = bit_or (u8 (shl v 1)) (shr v 7)

abbrev circular_right : ℕ → ℕ
circular_right v = bit_or (shr v 1) (u8 (shl (bit_and v 1) 7))

abbrev swapped : ℕ → ℕ
swapped v = bit_or (shr v 4) (u8 (shl v 4))

-- A rotation through either bit and back, and the bit that comes out.
there_and_back :
    (old : Bool) (v : ℕ)
    → v < 256
    → (right (top v) (left old v) ≡ v) × (left (bottom v) (right old v) ≡ v)
unfolding every_below
there_and_back true v lt = (
  byte_equation (λ v. right (top v) (left true v)) (λ v. v) refl v lt,
  byte_equation (λ v. left (bottom v) (right true v)) (λ v. v) refl v lt,
)
there_and_back false v lt = (
  byte_equation (λ v. right (top v) (left false v)) (λ v. v) refl v lt,
  byte_equation (λ v. left (bottom v) (right false v)) (λ v. v) refl v lt,
)

old_bit_out :
    (old : Bool) (v : ℕ) → v < 256 → (bottom (left old v) ≡ old) × (top (right old v) ≡ old)
unfolding every_below
old_bit_out true v lt = (
  byte_test (λ v. bottom (left true v)) true refl v lt,
  byte_test (λ v. top (right true v)) true refl v lt,
)
old_bit_out false v lt = (
  byte_test (λ v. bottom (left false v)) false refl v lt,
  byte_test (λ v. top (right false v)) false refl v lt,
)

carry_out :
    (r : Registers) (zero : Bool) (bit : ℕ)
    → r.f < 256
    → flag (set_flags r zero false false (not (bit == 0))) CpuFlag.c ≡ not (bit == 0)
carry_out r zero bit lt = (set_flags_lem r zero false false (not (bit == 0)) lt).0.3

-- RL and then RR give back the byte and the carry flag, and so do RR and then RL.
rotate_through_carry :
    (r : Registers) (v : ℕ)
    → IsValid r
    → v < 256
    → let (w, s) = alu_rl r v in
      let (w', s') = alu_rr r v in
      ((alu_rr s w).0 ≡ v)
      × (flag (alu_rr s w).1 CpuFlag.c ≡ flag r CpuFlag.c)
      × ((alu_rl s' w').0 ≡ v)
      × (flag (alu_rl s' w').1 CpuFlag.c ≡ flag r CpuFlag.c)
unfolding alu_rl alu_rr
rotate_through_carry r v h lt =
    let old = flag r CpuFlag.c in
    let s = set_flags_lem r (left old v == 0) false false (top v) h.f_byte in
    let s' = set_flags_lem r (right old v == 0) false false (bottom v) h.f_byte in
    let back = there_and_back old v lt in
    let out = old_bit_out old v lt in
    (
      rw s.0.3 back.0,
      carry_out _ _ (bit_and (left old v) 1) s.2 ∙ out.0,
      rw s'.0.3 back.1,
      carry_out _ _ (shr (right old v) 7) s'.2 ∙ out.1,
    )

-- RLC and RRC undo each other, and SWAP undoes itself.
rotate_circular :
    (r s : Registers) (v : ℕ)
    → v < 256
    → ((alu_rrc s (alu_rlc r v).0).0 ≡ v)
      × ((alu_rlc s (alu_rrc r v).0).0 ≡ v)
      × ((alu_swap s (alu_swap r v).0).0 ≡ v)
unfolding alu_rlc alu_rrc alu_swap every_below
rotate_circular r s v lt = (
  byte_equation (λ v. circular_right (circular_left v)) (λ v. v) refl v lt,
  byte_equation (λ v. circular_left (circular_right v)) (λ v. v) refl v lt,
  byte_equation (λ v. swapped (swapped v)) (λ v. v) refl v lt,
)
