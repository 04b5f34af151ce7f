-- ===== src/GameBoy/Alu/Flags.antt =====
-- Results and flags of the arithmetic operations.
use gb_os.Base.{
  ℕ, ◌+◌, ◌-◌, ◌*◌, ◌^◌, ◌%◌, ◌<◌, ◌≡◌, refl, ◌∙◌, bit_and, Bool, true, false, ◌&&◌, arith,
}
use gb_os.Base.{ltb, ◌==◌}
use native.Mathlib.Nat.{add-zero, sub-zero}
use gb_os.Base.Word.{u8}
use gb_os.Base.Bits.{and_mask}
use gb_os.GameBoy.Register.{CpuFlag, Registers, flag, set_flag, IsValid}
use gb_os.GameBoy.Register.Flags.{flag-set_flag}
use gb_os.GameBoy.Alu.{set_flags, bit_of, alu_add, alu_sub, alu_cp}

-- The four flags read as given.
abbrev pub HasFlags : Registers → Bool → Bool → Bool → Bool → Type 0
HasFlags r zero negative half carry =
    (flag r CpuFlag.z ≡ zero)
    × (flag r CpuFlag.n ≡ negative)
    × (flag r CpuFlag.h ≡ half)
    × (flag r CpuFlag.c ≡ carry)

pub set_flags_lem :
    (r : Registers) (zero negative half carry : Bool)
    → r.f < 256
    → HasFlags (set_flags r zero negative half carry) zero negative half carry
      × ((set_flags r zero negative half carry).f % 16 ≡ r.f % 16)
      × ((set_flags r zero negative half carry).f < 256)
set_flags_lem r zero negative half carry lt =
    let r1 = set_flag r CpuFlag.z zero in
    let r2 = set_flag r1 CpuFlag.n negative in
    let r3 = set_flag r2 CpuFlag.h half in
    let s1 = flag-set_flag r CpuFlag.z CpuFlag.z zero lt in
    let s2 = flag-set_flag r1 CpuFlag.n CpuFlag.z negative s1.2 in
    let n2 = flag-set_flag r1 CpuFlag.n CpuFlag.n negative s1.2 in
    let s3 = flag-set_flag r2 CpuFlag.h CpuFlag.z half s2.2 in
    let n3 = flag-set_flag r2 CpuFlag.h CpuFlag.n half s2.2 in
    let h3 = flag-set_flag r2 CpuFlag.h CpuFlag.h half s2.2 in
    let s4 = flag-set_flag r3 CpuFlag.c CpuFlag.z carry s3.2 in
    let n4 = flag-set_flag r3 CpuFlag.c CpuFlag.n carry s3.2 in
    let h4 = flag-set_flag r3 CpuFlag.c CpuFlag.h carry s3.2 in
    let c4 = flag-set_flag r3 CpuFlag.c CpuFlag.c carry s3.2 in
    (
      (s4.0 ∙ s3.0 ∙ s2.0 ∙ s1.0, n4.0 ∙ n3.0 ∙ n2.0, h4.0 ∙ h3.0, c4.0),
      s4.1 ∙ s3.1 ∙ s2.1 ∙ s1.1,
      s4.2,
    )

pub a-set_flags :
    (r : Registers) (zero negative half carry : Bool)
    → (set_flags r zero negative half carry).a ≡ r.a
unfolding set_flag
a-set_flags r zero negative half carry = refl

-- ADD and ADC: A and the carry out are the sum of A, the operand and the carry in, Z and H are as
-- documented, and N is clear.
pub alu_add_lem :
    (r : Registers) (value : ℕ) (with_carry : Bool)
    → IsValid r
    → value < 256
    → let r' = alu_add r value with_carry in
      let carry = bit_of (with_carry && flag r CpuFlag.c) in
      (r'.a + 256 * bit_of (flag r' CpuFlag.c) ≡ r.a + value + carry)
      × (flag r' CpuFlag.z ≡ (r'.a == 0))
      × (flag r' CpuFlag.n ≡ false)
      × (flag r' CpuFlag.h ≡ ltb 15 (r.a % 16 + value % 16 + carry))
unfolding alu_add
alu_add_lem r value with_carry v lt =
    let carry = bit_of (with_carry && flag r CpuFlag.c) in
    let result = r.a + value + carry in
    let half = bit_and r.a 0x0F + bit_and value 0x0F + carry in
    let summed : Registers = record r { a = u8 result } in
    ground (
      arith,
      and_mask 4 r.a,
      and_mask 4 value,
      a-set_flags summed (u8 result == 0) false (ltb 0x0F half) (ltb 0xFF result),
      set_flags_lem summed (u8 result == 0) false (ltb 0x0F half) (ltb 0xFF result) v.f_byte,
    )

-- SUB and SBC: A and the borrow out are the difference of A, the operand and the carry in, Z and H
-- are as documented, and N is set.
pub alu_sub_lem :
    (r : Registers) (value : ℕ) (with_carry : Bool)
    → IsValid r
    → value < 256
    → let r' = alu_sub r value with_carry in
      let carry = bit_of (with_carry && flag r CpuFlag.c) in
      (r'.a + value + carry ≡ r.a + 256 * bit_of (flag r' CpuFlag.c))
      × (flag r' CpuFlag.z ≡ (r'.a == 0))
      × (flag r' CpuFlag.n ≡ true)
      × (flag r' CpuFlag.h ≡ ltb (r.a % 16) (value % 16 + carry))
unfolding alu_sub
alu_sub_lem r value with_carry v lt =
    let carry = bit_of (with_carry && flag r CpuFlag.c) in
    let result = u8 (r.a + 2 ^ 16 - value - carry) in
    let left : Registers = record r { a = result } in
    let half = ltb (bit_and r.a 0x0F) (bit_and value 0x0F + carry) in
    ground (
      arith,
      and_mask 4 r.a,
      and_mask 4 value,
      a-set_flags left (result == 0) true half (ltb r.a (value + carry)),
      set_flags_lem left (result == 0) true half (ltb r.a (value + carry)) v.f_byte,
    )

-- CP is SUB without the carry in, with A left as it was.
alu_cp-eq-sub :
    (r : Registers) (value : ℕ) → alu_cp r value ≡ record (alu_sub r value false) { a = r.a }
unfolding alu_cp alu_sub set_flag
alu_cp-eq-sub r value = simp (add-zero, sub-zero)
