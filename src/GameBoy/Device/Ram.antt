-- ===== src/GameBoy/Device/Ram.antt =====
-- The memory map as the processor's bus, kernel/src/gameboy/mmu.rs: work RAM below its echo and high
-- RAM are memory, and carry the stack of kernel/src/gameboy/cpu.rs.
use gb_os.Base.{ℕ, ◌-◌, ◌^◌, ◌≤◌, ◌<◌, ◌≡◌, refl, sym, ap, ◌∙◌, ◌⊎◌, inl, inr, arith}
use mathlib.Core.Path.{subst}
use gb_os.Base.{◌≢◌, ◌==◌, if◌then◌else◌, length, get_or, set, length-set, get_or-set}
use gb_os.Base.Word.{wrapping_sub16}
use gb_os.Base.Bits.{and_mask}
use gb_os.GameBoy.Cpu.{Cpu, push, pop}
use gb_os.GameBoy.Cpu.Stack.{IsStore, pop-push}
use gb_os.GameBoy.Mmu.{Mmu, rb, rb_io, is_color_only, is_undocumented}
use gb_os.GameBoy.Mmu.Write.{wb, wb_direct, wb_io}
use gb_os.GameBoy.Mmu.Wram.{IsBanked, wram_slot, rb_wram, wb_wram, rb-wb}
use gb_os.GameBoy.Device.{mmu_bus}

abbrev InWork : ℕ → Type 0
InWork a = (0xC000 ≤ a) × (a < 0xE000)

abbrev InHigh : ℕ → Type 0
InHigh a = (0xFF80 ≤ a) × (a < 0xFFFF)

-- Work RAM below its echo, or high RAM.
abbrev pub IsRam : ℕ → Type 0
IsRam a = InWork a ⊎ InHigh a

-- Both memories have their sizes, and a bank is selected.
pub record HasRam (m : Mmu) : Type 0 where
  pub banked : IsBanked m
  pub high_size : length m.zram ≡ 0x7F

rb_high : (m : Mmu) (a : ℕ) → InHigh a → rb m a ≡ get_or m.zram (a - 0xFF80) 0
unfolding rb rb_io is_color_only is_undocumented
rb_high m a h = ground (arith, and_mask 7 a)

wb_high : (m : Mmu) (a v : ℕ) → InHigh a → wb m a v ≡ record m { zram = set m.zram (a - 0xFF80) v }
unfolding wb wb_direct wb_io is_color_only is_undocumented
wb_high m a v h = ground (arith, and_mask 7 a)

-- Below the echo, addresses of one byte of work RAM are equal.
slots_apart :
    (m : Mmu) (a b : ℕ)
    → IsBanked m
    → InWork a
    → InWork b
    → (wram_slot m a == wram_slot m b) ≡ (a == b)
slots_apart m a b h p q = ground (arith, h)

rb-wb_work :
    (m : Mmu) (a b v : ℕ)
    → IsBanked m
    → InWork a
    → InWork b
    → rb (wb m a v) b ≡ (if a == b then v else rb m b)
rb-wb_work m a b v h p q =
    rb-wb m a b v h p.0 (omega (arith, p.1)) q.0 (omega (arith, q.1))
    ∙ ap (λ k. if k then v else rb m b) (slots_apart m a b h p q)

apart : (a b v w : ℕ) → a ≢ b → w ≡ (if a == b then v else w)
apart a b v w h = ground arith

rb-wb_ram :
    (m : Mmu) (a b v : ℕ)
    → HasRam m
    → IsRam a
    → IsRam b
    → rb (wb m a v) b ≡ (if a == b then v else rb m b)
rb-wb_ram m a b v h (inl p) (inl q) = rb-wb_work m a b v h.banked p q
rb-wb_ram m a b v h (inl p) (inr q) =
    ap (λ s. rb s b) (wb_wram m a p.0 (omega (arith, p.1)) v)
    ∙ rb_high (record m { wram = set m.wram (wram_slot m a) v }) b q
    ∙ sym (rb_high m b q)
    ∙ apart a b v (rb m b) (λ e. omega (arith, p.1, q.0))
rb-wb_ram m a b v h (inr p) (inl q) =
    ap (λ s. rb s b) (wb_high m a v p)
    ∙ rb_wram (record m { zram = set m.zram (a - 0xFF80) v }) b q.0 (omega (arith, q.1))
    ∙ sym (rb_wram m b q.0 (omega (arith, q.1)))
    ∙ apart a b v (rb m b) (λ e. omega (arith, p.0, q.1))
rb-wb_ram m a b v h (inr p) (inr q) =
    let same_place : (a - 0xFF80 == b - 0xFF80) ≡ (a == b) = ground (arith, p.0, q.0) in
    ap (λ s. rb s b) (wb_high m a v p)
    ∙ rb_high (record m { zram = set m.zram (a - 0xFF80) v }) b q
    ∙ get_or-set m.zram (a - 0xFF80) (b - 0xFF80) v 0 (omega (arith, h.high_size, p.1))
    ∙ ap (λ k. if k then v else get_or m.zram (b - 0xFF80) 0) same_place
    ∙ ap (λ k. if a == b then v else k) (sym (rb_high m b q))

wb-HasRam : (m : Mmu) (a v : ℕ) → HasRam m → IsRam a → HasRam (wb m a v)
wb-HasRam m a v h (inl p) = subst HasRam (sym (wb_wram m a p.0 (omega (arith, p.1)) v)) (record {
  banked = record {
    size = length-set m.wram (wram_slot m a) v ∙ h.banked.size;
    bank_min = h.banked.bank_min;
    bank_max = h.banked.bank_max;
  };
  high_size = h.high_size;
})
wb-HasRam m a v h (inr p) = subst HasRam (sym (wb_high m a v p)) (record {
  banked = record {
    size = h.banked.size;
    bank_min = h.banked.bank_min;
    bank_max = h.banked.bank_max;
  };
  high_size = length-set m.zram (a - 0xFF80) v ∙ h.high_size;
})

-- The memory map is the store that the stack asks for.
mmu_bus-IsStore : IsStore mmu_bus HasRam IsRam
mmu_bus-IsStore = record {
  read-write = rb-wb_ram;
  read_keeps = λ m a h cell. refl;
  write-Holds = wb-HasRam;
}

-- On the memory map, with both memories of their sizes and a bank selected: a word pushed onto the
-- stack is popped again and all registers are as before, when both its bytes lie in work RAM below
-- the echo or in high RAM.
pub stack_round_trip :
    (c : Cpu mmu_bus) (value : ℕ)
    → HasRam c.mmu
    → IsRam (wrapping_sub16 c.reg.sp 2)
    → IsRam (wrapping_sub16 c.reg.sp 1)
    → c.reg.sp < 2 ^ 16
    → value < 2 ^ 16
    → let (popped, after) = pop mmu_bus (push mmu_bus c value) in
      (popped ≡ value) × (after.reg ≡ c.reg)
stack_round_trip = pop-push mmu_bus HasRam IsRam mmu_bus-IsStore
