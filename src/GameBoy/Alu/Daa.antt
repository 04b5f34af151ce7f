-- ===== src/GameBoy/Alu/Daa.antt =====
-- DAA corrects binary arithmetic on two packed decimal digits.
use gb_os.Base.{
  ℕ, ◌+◌, ◌-◌, ◌*◌, ◌/◌, ◌%◌, ◌^◌, ◌<◌, ◌≤◌, ◌≡◌, refl, ◌⊎◌, Bool, true, false, ◌&&◌, arith,
}
use gb_os.Base.{ltb, ◌==◌, if◌then◌else◌}
use gb_os.Base.Word.{u8, u16}
use gb_os.Base.Bits.{and_mask}
use gb_os.GameBoy.Register.{CpuFlag, Registers, flag, set_flag, IsValid}
use gb_os.GameBoy.Register.Flags.{flag-set_flag}
use gb_os.GameBoy.Alu.{bit_of, alu_add, alu_sub, alu_daa, daa_adjusted}
use gb_os.GameBoy.Alu.Flags.{alu_add_lem, alu_sub_lem}
use gb_os.GameBoy.Alu.Valid.{alu_add-IsValid, alu_sub-IsValid}

-- The byte that holds the two digits of a number below 100.
unfoldable pub packed : ℕ → ℕ
packed n = n / 10 * 16 + n % 10

a-set_flag : (r : Registers) (p : CpuFlag) (v : Bool) → (set_flag r p v).a ≡ r.a
unfolding set_flag
a-set_flag r p v = refl

-- Flags do not depend on A.
flag_of_a : (r : Registers) (a : ℕ) → flag (record r { a = a }) CpuFlag.c ≡ flag r CpuFlag.c
unfolding flag
flag_of_a r a = refl

-- The corrected A, and carry out, by the flags that the arithmetic left.
daa_lem :
    (r : Registers)
    → IsValid r
    → ((alu_daa r).a ≡ u8 (daa_adjusted r))
      × (flag (alu_daa r) CpuFlag.c ≡ (
          if ltb 255 (daa_adjusted r) && ltb (daa_adjusted r) 0x8000
          then true
          else flag r CpuFlag.c))
unfolding alu_daa
daa_lem r v =
    let a = daa_adjusted r in
    let r0 : Registers = record r { a = u8 a } in
    let r1 = set_flag r0 CpuFlag.z (u8 a == 0) in
    let r2 = set_flag r1 CpuFlag.h false in
    let first = flag-set_flag r0 CpuFlag.z CpuFlag.c (u8 a == 0) v.f_byte in
    let second = flag-set_flag r1 CpuFlag.h CpuFlag.c false first.2 in
    let third = flag-set_flag r2 CpuFlag.c CpuFlag.c true second.2 in
    ground (
      arith,
      first.0,
      second.0,
      third.0,
      a-set_flag r0 CpuFlag.z (u8 a == 0),
      a-set_flag r1 CpuFlag.h false,
      a-set_flag r2 CpuFlag.c true,
      flag_of_a r (u8 a),
    )

adjusted-packed :
    (r : Registers) (x y : ℕ) (k : Bool)
    → x < 100
    → y < 100
    → r.a + 256 * bit_of (flag r CpuFlag.c) ≡ packed x + packed y + bit_of k
    → flag r CpuFlag.n ≡ false
    → flag r CpuFlag.h ≡ ltb 15 (packed x % 16 + packed y % 16 + bit_of k)
    → daa_adjusted r + 256 * bit_of (flag r CpuFlag.c)
      ≡ packed ((x + y + bit_of k) % 100) + 256 * ((x + y + bit_of k) / 100)
unfolding daa_adjusted packed
adjusted-packed r x y k hx hy sum neg half = ground (arith, and_mask 4 r.a)

-- ADD or ADC of two packed numbers, then DAA: A holds the packed last two digits of the decimal
-- sum with the carry in, and the carry flag says whether the sum is above 99.
pub daa_after_add :
    (r : Registers) (x y : ℕ) (with_carry : Bool)
    → IsValid r
    → x < 100
    → y < 100
    → r.a ≡ packed x
    → let r' = alu_daa (alu_add r (packed y) with_carry) in
      let total = x + y + bit_of (with_carry && flag r CpuFlag.c) in
      (r'.a ≡ packed (total % 100)) × (flag r' CpuFlag.c ≡ ltb 99 total)
unfolding packed
daa_after_add r x y with_carry v hx hy start =
    let k = with_carry && flag r CpuFlag.c in
    let s = alu_add r (packed y) with_carry in
    let small : packed y < 256 = omega arith in
    let added = alu_add_lem r (packed y) with_carry v small in
    let valid = alu_add-IsValid r (packed y) v small with_carry in
    ground (
      arith,
      daa_lem s valid,
      valid.a_byte,
      adjusted-packed s x y k hx hy (omega (arith, added.0)) added.2 (rw (← start) added.3),
    )

adjusted_difference :
    (r : Registers) (x y : ℕ) (k : Bool)
    → x < 100
    → y < 100
    → r.a < 256
    → r.a + packed y + bit_of k ≡ packed x + 256 * bit_of (flag r CpuFlag.c)
    → flag r CpuFlag.n ≡ true
    → flag r CpuFlag.h ≡ ltb (packed x % 16) (packed y % 16 + bit_of k)
    → (u8 (daa_adjusted r) ≡ packed ((x + 100 - y - bit_of k) % 100))
      × (bit_of (flag r CpuFlag.c) ≡ bit_of (ltb x (y + bit_of k)))
      × ((daa_adjusted r < 256) ⊎ (0x8000 ≤ daa_adjusted r))
unfolding daa_adjusted packed
adjusted_difference r x y k hx hy small sum neg half =
    ground (arith, and_mask 8 (u16 (r.a + 2 ^ 16 - 6)), small)

-- SUB or SBC of two packed numbers, then DAA: A holds the packed decimal difference modulo 100,
-- and the carry flag says whether a borrow was needed.
daa_after_sub :
    (r : Registers) (x y : ℕ) (with_carry : Bool)
    → IsValid r
    → x < 100
    → y < 100
    → r.a ≡ packed x
    → let r' = alu_daa (alu_sub r (packed y) with_carry) in
      let borrow = bit_of (with_carry && flag r CpuFlag.c) in
      (r'.a ≡ packed ((x + 100 - y - borrow) % 100)) × (flag r' CpuFlag.c ≡ ltb x (y + borrow))
unfolding packed
daa_after_sub r x y with_carry v hx hy start =
    let k = with_carry && flag r CpuFlag.c in
    let s = alu_sub r (packed y) with_carry in
    let small : packed y < 256 = omega arith in
    let taken = alu_sub_lem r (packed y) with_carry v small in
    let valid = alu_sub-IsValid r (packed y) v small with_carry in
    ground (
      arith,
      daa_lem s valid,
      adjusted_difference s x y k hx hy valid.a_byte (omega (arith, taken.0)) taken.2
          (rw (← start) taken.3),
    )
