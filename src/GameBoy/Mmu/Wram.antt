-- ===== src/GameBoy/Mmu/Wram.antt =====
-- Work RAM: its banks, its echo, and words in it.
use gb_os.Base.{ℕ, ◌+◌, ◌*◌, ◌%◌, ◌^◌, ◌≤◌, ◌<◌, ◌≡◌, ◌≢◌, sym, ap, ◌∙◌, bit_and, bit_or, arith}
use mathlib.Core.Path.{subst}
use gb_os.Base.{inl, inr, Bool-cases, ◌==◌, if◌then◌else◌}
use gb_os.Base.{length, get_or, set, length-set, get_or-set}
use gb_os.Base.Word.{u16, shl, shr}
use gb_os.Base.Bits.{and_mask, or_fields}
use gb_os.GameBoy.Cpu.Stack.{word_bytes}
use gb_os.GameBoy.Mmu.{Mmu, is_wram0, wram1_index, rb, rw}
use gb_os.GameBoy.Mmu.Write.{wb_direct, wb, ww}

-- The byte of work RAM behind an address from 0xC000 to 0xFDFF: bank 0, or the selected bank.
abbrev pub wram_slot : Mmu → ℕ → ℕ
wram_slot m a = if is_wram0 a then a % 4096 else m.wrambank * 4096 + a % 4096

slot_of0 : (a : ℕ) → bit_and a 0x0FFF ≡ a % 4096
slot_of0 a = and_mask 12 a

slot_of1 : (m : Mmu) (a : ℕ) → wram1_index m a ≡ m.wrambank * 4096 + a % 4096
slot_of1 m a =
    ap (λ k. bit_or (m.wrambank * 4096) k) (and_mask 12 a)
    ∙ or_fields 12 m.wrambank (a % 4096) (omega arith)

module _ (m : Mmu) (a : ℕ) (low : 0xC000 ≤ a) (high : a < 0xFE00) where
  pub rb_wram : rb m a ≡ get_or m.wram (wram_slot m a) 0
  unfolding rb
  rb_wram = ground (arith, slot_of0 a, slot_of1 m a)

  pub wb_wram : (v : ℕ) → wb m a v ≡ record m { wram = set m.wram (wram_slot m a) v }
  unfolding wb wb_direct
  wb_wram v = elim (Bool-cases (is_wram0 a)) [
    | inl zero_bank ↦ ground (arith, slot_of0 a)
    | inr other ↦ ground (arith, slot_of1 m a)
  ]

-- Reads and writes at 0xE000 to 0xFDFF do what they do 0x2000 below, in work RAM.
echo :
    (m : Mmu) (a v : ℕ)
    → 0xC000 ≤ a
    → a < 0xDE00
    → (rb m (a + 0x2000) ≡ rb m a) × (wb m (a + 0x2000) v ≡ wb m a v)
echo m a v low high =
    let same_slot : wram_slot m (a + 0x2000) ≡ wram_slot m a = ground arith in
    (
      rb_wram m (a + 0x2000) (omega arith) (omega arith)
          ∙ ap (λ k. get_or m.wram k 0) same_slot
          ∙ sym (rb_wram m a low (omega arith)),
      wb_wram m (a + 0x2000) (omega arith) (omega arith) v
          ∙ ap (λ k. record m { wram = set m.wram k v }) same_slot
          ∙ sym (wb_wram m a low (omega arith) v),
    )

-- The banks are all there.
pub record IsBanked (m : Mmu) : Type 0 where
  pub size : length m.wram ≡ 0x8000
  pub bank_min : 1 ≤ m.wrambank
  pub bank_max : m.wrambank ≤ 7

slot-lt : (m : Mmu) (a : ℕ) → IsBanked m → wram_slot m a < 0x8000
slot-lt m a v = ground (arith, v)

-- A byte of work RAM reads as what was written to it last, through either address.
pub rb-wb :
    (m : Mmu) (a b v : ℕ)
    → IsBanked m
    → 0xC000 ≤ a
    → a < 0xFE00
    → 0xC000 ≤ b
    → b < 0xFE00
    → rb (wb m a v) b ≡ (if wram_slot m a == wram_slot m b then v else rb m b)
rb-wb m a b v h la ha lb hb =
    let slot = wram_slot m b in
    ap (λ s. rb s b) (wb_wram m a la ha v)
    ∙ rb_wram (record m { wram = set m.wram (wram_slot m a) v }) b lb hb
    ∙ get_or-set m.wram (wram_slot m a) slot v 0 (omega (arith, h.size, slot-lt m a h))
    ∙ ap (λ k. if wram_slot m a == slot then v else k) (sym (rb_wram m b lb hb))

pub wb-IsBanked : (m : Mmu) (a v : ℕ) → 0xC000 ≤ a → a < 0xFE00 → IsBanked m → IsBanked (wb m a v)
wb-IsBanked m a v low high h = subst IsBanked (sym (wb_wram m a low high v)) (record {
  size = length-set m.wram (wram_slot m a) v ∙ h.size;
  bank_min = h.bank_min;
  bank_max = h.bank_max;
})

slot_next :
    (m : Mmu) (a b : ℕ)
    → IsBanked m
    → 0xC000 ≤ a
    → a < 0xDFFF
    → b ≡ a + 1
    → wram_slot m b ≢ wram_slot m a
slot_next m a b v low high e same = ground (arith, v)

other_slot : (k l v w : ℕ) → k ≢ l → (if k == l then v else w) ≡ w
other_slot k l v w h = ground arith

same_slot : (k v w : ℕ) → (if k == k then v else w) ≡ v
same_slot k v w = ground arith

-- With all banks there and one of 1 to 7 selected, a word written to work RAM, below its last byte
-- and its echo, is read back.
pub rw-ww :
    (m : Mmu) (a v : ℕ) → IsBanked m → 0xC000 ≤ a → a < 0xDFFF → v < 2 ^ 16 → rw (ww m a v) a ≡ v
unfolding rw ww
rw-ww m a v h low high lt =
    let b = u16 (a + 1) in
    let next : b ≡ a + 1 = omega arith in
    let m1 = wb m a (bit_and v 0xFF) in
    let h1 = wb-IsBanked m a (bit_and v 0xFF) low (omega arith) h in
    let m2 = wb m1 b (shr v 8) in
    let first : rb m2 a ≡ bit_and v 0xFF =
      rb-wb m1 b a (shr v 8) h1 (omega arith) (omega arith) low (omega arith)
      ∙ other_slot (wram_slot m1 b) (wram_slot m1 a) _ _ (slot_next m1 a b h1 low high next)
      ∙ rb-wb m a a (bit_and v 0xFF) h low (omega arith) low (omega arith)
      ∙ same_slot (wram_slot m a) _ _ in
    let second : rb m2 b ≡ shr v 8 =
      rb-wb m1 b b (shr v 8) h1 (omega arith) (omega arith) (omega arith) (omega arith)
      ∙ same_slot (wram_slot m1 b) _ _ in
    ap (λ k. bit_or k (shl (rb m2 b) 8)) first
    ∙ ap (λ k. bit_or (bit_and v 0xFF) (shl k 8)) second
    ∙ word_bytes v lt
