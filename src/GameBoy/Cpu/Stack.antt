-- ===== src/GameBoy/Cpu/Stack.antt =====
-- Words on the stack.
use gb_os.Base.{ℕ, ◌+◌, ◌/◌, ◌%◌, ◌^◌, ◌<◌, ◌≡◌, ◌≢◌, refl, ◌∙◌, sym, ap, bit_and, bit_or, arith}
use mathlib.Core.Path.{subst}
use gb_os.Base.{◌==◌, if◌then◌else◌}
use gb_os.Base.Word.{u16, wrapping_sub16, shl, shr}
use gb_os.Base.Bits.{and_mask, or_fields, or_comm}
use gb_os.GameBoy.Cpu.{Bus, Cpu, read_wide, write_wide, push, pop}

-- In every state with `Holds`, the addresses in `IsCell` are memory: a read gives what was written
-- last and changes nothing, and a write keeps `Holds`.
pub record IsStore (bus : Bus) (Holds : bus.State → Type 0) (IsCell : ℕ → Type 0) : Type 0 where
  pub read-write :
      (s : bus.State) (a b v : ℕ)
      → Holds s
      → IsCell a
      → IsCell b
      → (bus.rb (bus.wb s a v) b).0 ≡ (if a == b then v else (bus.rb s b).0)
  pub read_keeps : (s : bus.State) (a : ℕ) → Holds s → IsCell a → (bus.rb s a).1 ≡ s
  pub write-Holds : (s : bus.State) (a v : ℕ) → Holds s → IsCell a → Holds (bus.wb s a v)

-- The two bytes of a word make the word.
pub word_bytes : (v : ℕ) → v < 2 ^ 16 → bit_or (bit_and v 0xFF) (shl (shr v 8) 8) ≡ v
word_bytes v h =
    or_comm (bit_and v 0xFF) (shl (shr v 8) 8)
    ∙ ap (λ z. bit_or (shl (shr v 8) 8) z) (and_mask 8 v)
    ∙ omega (arith, or_fields 8 (v / 2 ^ 8) (v % 2 ^ 8))

module _ (bus : Bus) (Holds : bus.State → Type 0) (IsCell : ℕ → Type 0)
    (laws : IsStore bus Holds IsCell) where
  -- A word written to two cells of memory is read back, and the read changes nothing.
  pub read_wide-write_wide :
      (s : bus.State) (a v : ℕ)
      → Holds s
      → IsCell a
      → IsCell (u16 (a + 1))
      → a < 2 ^ 16
      → v < 2 ^ 16
      → read_wide bus (write_wide bus s a v) a ≡ (v, write_wide bus s a v)
  unfolding read_wide write_wide
  read_wide-write_wide s a v h0 low high ha hv =
      let s1 = bus.wb s a (bit_and v 0xFF) in
      let s2 = bus.wb s1 (u16 (a + 1)) (shr v 8) in
      let h1 = laws.write-Holds s a (bit_and v 0xFF) h0 low in
      let h2 = laws.write-Holds s1 (u16 (a + 1)) (shr v 8) h1 high in
      let differ : u16 (a + 1) ≢ a = λ e. omega arith in
      ground (
        arith,
        laws.read-write s a a (bit_and v 0xFF) h0 low low,
        laws.read-write s1 (u16 (a + 1)) a (shr v 8) h1 high low,
        laws.read-write s1 (u16 (a + 1)) (u16 (a + 1)) (shr v 8) h1 high high,
        laws.read_keeps s2 a h2 low,
        laws.read_keeps s2 (u16 (a + 1)) h2 high,
        word_bytes v hv,
      )

  -- A word pushed onto two cells of memory is popped again, and the registers are as before.
  pub pop-push :
      (c : Cpu bus) (value : ℕ)
      → Holds c.mmu
      → IsCell (wrapping_sub16 c.reg.sp 2)
      → IsCell (wrapping_sub16 c.reg.sp 1)
      → c.reg.sp < 2 ^ 16
      → value < 2 ^ 16
      → let (popped, after) = pop bus (push bus c value) in (popped ≡ value) × (after.reg ≡ c.reg)
  unfolding push pop
  pop-push c value h0 low high hsp hv =
      let sp' = wrapping_sub16 c.reg.sp 2 in
      let e : u16 (sp' + 1) ≡ wrapping_sub16 c.reg.sp 1 = omega arith in
      let back : u16 (sp' + 2) ≡ c.reg.sp = omega arith in
      let high' = subst IsCell (sym e) high in
      let word = read_wide-write_wide c.mmu sp' value h0 low high' (omega arith) hv in
      (unfold read_wide in ap (λ r. r.0) word, rw back refl)
