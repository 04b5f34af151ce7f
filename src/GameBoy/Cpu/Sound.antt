-- ===== src/GameBoy/Cpu/Sound.antt =====
-- What the processor relies on of its bus, and what it keeps: words on the bus and registers in
-- range. The interface between the processor and the memory map.
pub mod Actions
pub mod Others
pub mod Step
use gb_os.Base.{ℕ, ◌+◌, ◌-◌, ◌*◌, ◌%◌, ◌≤◌, ◌<◌, ◌≡◌, bit_and, bit_or, arith}
use gb_os.Base.{◌==◌, if◌then◌else◌}
use gb_os.Base.Word.{u16, wrapping_sub16, shl, shr}
use gb_os.Base.Bits.{and_mask, or-lt}
use gb_os.GameBoy.Register.{Registers, IsValid}
use gb_os.GameBoy.Cpu.{Bus, Cpu, read_wide, write_wide, fetchbyte, fetchword, push, pop}

-- A state of the bus is good: reads give bytes, and what an instruction does to it with
-- a byte keeps it good.
pub record IsSound (bus : Bus) (Good : bus.State → Type 0) : Type 0 where
  pub rb-lt : (s : bus.State) (a : ℕ) → Good s → (bus.rb s a).0 < 256
  pub rb-Good : (s : bus.State) (a : ℕ) → Good s → Good (bus.rb s a).1
  pub wb-Good : (s : bus.State) (a v : ℕ) → Good s → v < 256 → Good (bus.wb s a v)
  pub switch_speed-Good : (s : bus.State) → Good s → Good (bus.switch_speed s)

module _ (bus : Bus) (Good : bus.State → Type 0) where
  -- The bus is good and the registers are in range.
  pub record IsGood (c : Cpu bus) : Type 0 where
    pub good : Good c.mmu
    pub valid : IsValid c.reg

module _ (bus : Bus) (Good : bus.State → Type 0) (sound : IsSound bus Good) where
  read_wide-Good :
      (s : bus.State) (a : ℕ)
      → Good s
      → ((read_wide bus s a).0 < 65536) × Good (read_wide bus s a).1
  unfolding read_wide
  read_wide-Good s a g =
      let (low, s1) = bus.rb s a in
      let g1 = sound.rb-Good s a g in
      let high_lt = sound.rb-lt s1 (u16 (a + 1)) g1 in
      let low_lt = sound.rb-lt s a g in
      (
        or-lt 16 low (shl (bus.rb s1 (u16 (a + 1))).0 8) (omega arith) (omega arith),
        sound.rb-Good s1 (u16 (a + 1)) g1,
      )

  pub write_wide-Good : (s : bus.State) (a v : ℕ) → Good s → v < 65536 → Good (write_wide bus s a v)
  unfolding write_wide
  write_wide-Good s a v g lt =
      sound.wb-Good _ _ _ (sound.wb-Good s a _ g (omega (arith, masked))) (omega arith)
    where
      masked : bit_and v 0xFF < 256
      masked = omega (arith, and_mask 8 v)

  pub fetchbyte-IsGood :
      (c : Cpu bus)
      → IsGood bus Good c
      → ((fetchbyte bus c).0 < 256) × IsGood bus Good (fetchbyte bus c).1
  unfolding fetchbyte
  fetchbyte-IsGood c h = (
    sound.rb-lt c.mmu c.reg.pc h.good,
    record { good = sound.rb-Good c.mmu c.reg.pc h.good; valid = ground (arith, h.valid) },
  )

  pub fetchword-IsGood :
      (c : Cpu bus)
      → IsGood bus Good c
      → ((fetchword bus c).0 < 65536) × IsGood bus Good (fetchword bus c).1
  unfolding fetchword
  fetchword-IsGood c h =
      let (lt, good) = read_wide-Good c.mmu c.reg.pc h.good in
      (lt, record { good = good; valid = ground (arith, h.valid) })

  pub push-IsGood :
      (c : Cpu bus) (value : ℕ)
      → IsGood bus Good c
      → value < 65536
      → IsGood bus Good (push bus c value)
  unfolding push
  push-IsGood c value h lt = record {
    good = write_wide-Good c.mmu (wrapping_sub16 c.reg.sp 2) value h.good lt;
    valid = ground (arith, h.valid);
  }

  pub pop-IsGood :
      (c : Cpu bus) → IsGood bus Good c → ((pop bus c).0 < 65536) × IsGood bus Good (pop bus c).1
  unfolding pop
  pop-IsGood c h =
      let (lt, good) = read_wide-Good c.mmu c.reg.sp h.good in
      (lt, record { good = good; valid = ground (arith, h.valid) })
