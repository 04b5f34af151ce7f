-- ===== src/GameBoy/Register.antt =====
-- The register file, kernel/src/gameboy/register.rs.
pub mod Flags
pub mod Pairs
pub mod Fields
use gb_os.Base.{ℕ, ◌<◌, ◌%◌, ◌^◌, ◌≡◌, bit_and, bit_or, Bool, not, ◌==◌, if◌then◌else◌}
use gb_os.Base.Word.{u8, u16, shl, shr, not8}
use gb_os.GameBoy.Mode.{GbMode}

pub data CpuFlag : Type 0 where
  z n h c : CpuFlag

-- `flag as u8`.
unfoldable pub mask : CpuFlag → ℕ
mask z = 0b10000000
mask n = 0b01000000
mask h = 0b00100000
mask c = 0b00010000

pub record Registers : Type 0 where
  pub a : ℕ
  pub f : ℕ
  pub b : ℕ
  pub c : ℕ
  pub d : ℕ
  pub e : ℕ
  pub h : ℕ
  pub l : ℕ
  pub sp : ℕ
  pub pc : ℕ

unfoldable pub new : GbMode → Registers
new GbMode.classic = record {
  a = 0x01;
  f = 0xB0;
  b = 0x00;
  c = 0x13;
  d = 0x00;
  e = 0xD8;
  h = 0x01;
  l = 0x4D;
  sp = 0xFFFE;
  pc = 0x0100;
}
new _ = record {
  a = 0x11;
  f = 0x80;
  b = 0x00;
  c = 0x00;
  d = 0xFF;
  e = 0x56;
  h = 0x00;
  l = 0x0D;
  sp = 0xFFFE;
  pc = 0x0100;
}

-- `((hi as u16) << 8) | (lo as u16)`.
unfoldable pub pair : ℕ → ℕ → ℕ
pair hi lo = bit_or (u16 (shl hi 8)) lo

unfoldable pub af : Registers → ℕ
unfolding pair
af r = pair r.a r.f

unfoldable pub set_af : Registers → ℕ → Registers
set_af r value = record r { a = u8 (shr value 8); f = u8 (bit_and value 0xF0) }

unfoldable pub bc : Registers → ℕ
unfolding pair
bc r = pair r.b r.c

unfoldable pub set_bc : Registers → ℕ → Registers
set_bc r value = record r { b = u8 (shr value 8); c = u8 value }

unfoldable pub de : Registers → ℕ
unfolding pair
de r = pair r.d r.e

unfoldable pub set_de : Registers → ℕ → Registers
set_de r value = record r { d = u8 (shr value 8); e = u8 value }

unfoldable pub hl : Registers → ℕ
unfolding pair
hl r = pair r.h r.l

unfoldable pub set_hl : Registers → ℕ → Registers
set_hl r value = record r { h = u8 (shr value 8); l = u8 value }

unfoldable pub flag : Registers → CpuFlag → Bool
unfolding mask
flag r which = not (bit_and r.f (mask which) == 0)

unfoldable pub set_flag : Registers → CpuFlag → Bool → Registers
unfolding mask
set_flag r which value = record r {
  f = (if value then bit_or r.f (mask which) else bit_and r.f (not8 (mask which)));
}

-- The ranges of the fields; the low half of F is always clear.
pub record IsValid (r : Registers) : Type 0 where
  pub a_byte : r.a < 256
  pub f_byte : r.f < 256
  pub f_low : r.f % 16 ≡ 0
  pub b_byte : r.b < 256
  pub c_byte : r.c < 256
  pub d_byte : r.d < 256
  pub e_byte : r.e < 256
  pub h_byte : r.h < 256
  pub l_byte : r.l < 256
  pub sp_word : r.sp < 65536
  pub pc_word : r.pc < 65536
