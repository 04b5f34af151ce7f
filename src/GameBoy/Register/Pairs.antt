-- ===== src/GameBoy/Register/Pairs.antt =====
-- The register pairs as 16-bit registers.
use gb_os.Base.{ℕ, ◌<◌, ◌%◌, ◌-◌, ◌/◌, ◌+◌, ◌*◌, ◌≡◌, bit_and, arith}
use gb_os.Base.Bits.{and_mask, or_fields, and_digit}
use gb_os.GameBoy.Register.{
  Registers, pair, af, set_af, bc, set_bc, de, set_de, hl, set_hl, IsValid,
}

pub pair-eq-add : (hi lo : ℕ) → hi < 256 → lo < 256 → pair hi lo ≡ hi * 256 + lo
unfolding pair
pair-eq-add hi lo p q =
    let whole : hi * 256 % 65536 ≡ hi * 256 = omega arith in rw whole (or_fields 8 hi lo q)

-- A mask of the high half of a byte.
pub and_high : (v : ℕ) → bit_and v 0xF0 ≡ v % 256 - v % 16
and_high v = omega (
  arith,
  and_digit v 0xF0,
  and_digit (v / 2) 0x78,
  and_digit (v / 2 / 2) 0x3C,
  and_digit (v / 2 / 2 / 2) 0x1E,
  and_mask 4 (v / 2 / 2 / 2 / 2),
)

-- What is put into a pair is what is read from it; AF loses the low half of F.
pairs_hold :
    (r : Registers) (v : ℕ)
    → v < 65536
    → (bc (set_bc r v) ≡ v)
      × (de (set_de r v) ≡ v)
      × (hl (set_hl r v) ≡ v)
      × (af (set_af r v) ≡ v - v % 16)
unfolding bc de hl af set_bc set_de set_hl set_af
pairs_hold r v lt = (
  omega (arith, pair-eq-add (v / 256 % 256) (v % 256) (omega arith) (omega arith)),
  omega (arith, pair-eq-add (v / 256 % 256) (v % 256) (omega arith) (omega arith)),
  omega (arith, pair-eq-add (v / 256 % 256) (v % 256) (omega arith) (omega arith)),
  omega (
    arith,
    and_high v,
    pair-eq-add (v / 256 % 256) (bit_and v 0xF0 % 256) (omega arith) (omega arith),
  ),
)

pub set_af-IsValid : {r : Registers} (v : ℕ) → IsValid r → IsValid (set_af r v)
unfolding set_af
set_af-IsValid v h = ground (arith, and_high v)

pub set_bc-IsValid : {r : Registers} (v : ℕ) → IsValid r → IsValid (set_bc r v)
unfolding set_bc
set_bc-IsValid v h = ground arith

pub set_de-IsValid : {r : Registers} (v : ℕ) → IsValid r → IsValid (set_de r v)
unfolding set_de
set_de-IsValid v h = ground arith

pub set_hl-IsValid : {r : Registers} (v : ℕ) → IsValid r → IsValid (set_hl r v)
unfolding set_hl
set_hl-IsValid v h = ground arith

-- The pairs of valid registers are 16-bit words.
pub pairs-lt :
    {r : Registers} → IsValid r → (af r < 65536) × (bc r < 65536) × (de r < 65536) × (hl r < 65536)
unfolding af bc de hl
pairs-lt {r} v = omega (
  arith,
  pair-eq-add r.a r.f v.a_byte v.f_byte,
  pair-eq-add r.b r.c v.b_byte v.c_byte,
  pair-eq-add r.d r.e v.d_byte v.e_byte,
  pair-eq-add r.h r.l v.h_byte v.l_byte,
)
