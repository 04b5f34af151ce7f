-- ===== src/GameBoy/Mmu/Write/Transfers.antt =====
-- General transfers to video memory.
use gb_os.Base.{ℕ, zero, suc, ◌+◌, ◌-◌, ◌*◌, ◌<◌, ◌≡◌, refl, sym, ap, ◌∙◌, bit_or, arith}
use gb_os.Base.{◌==◌, if◌then◌else◌}
use mathlib.Core.Path.{subst}
use gb_os.Base.Word.{u16}
use gb_os.GameBoy.Mmu.{Mmu, DmaType, is_no_dma, hdma_read, rb}
use gb_os.GameBoy.Mmu.Write.Copied.{
  HasVideo, IsSource, IsTarget, copied, IsSource-part, source_below, rb-perform_vramdma_row,
  copied_more, rb_status,
}
use gb_os.GameBoy.Mmu.Write.Cycle.{
  row_loop, perform_vramdma_row, perform_rows, perform_gdma, perform_vramdma, vramdma_as,
}

-- The transfer's registers of two states.
abbrev SameTransfer : Mmu → Mmu → Type 0
SameTransfer m n = (n.hdma_src ≡ m.hdma_src) × (n.hdma_dst ≡ m.hdma_dst) × (n.hdma_len ≡ m.hdma_len)

row_loop-SameTransfer : (n : ℕ) (m : Mmu) (j : ℕ) → SameTransfer m (row_loop m n j)
unfolding row_loop
row_loop-SameTransfer zero m j = (refl, refl, refl)
row_loop-SameTransfer (suc n) m j = row_loop-SameTransfer n _ (j + 1)

-- The registers after a row.
perform_vramdma_row_lem :
    (m : Mmu)
    → ((perform_vramdma_row m).hdma_src ≡ u16 (m.hdma_src + 0x10))
      × ((perform_vramdma_row m).hdma_dst ≡ u16 (m.hdma_dst + 0x10))
      × ((perform_vramdma_row m).hdma_len ≡ (if m.hdma_len == 0 then 0x7F else m.hdma_len - 1))
unfolding perform_vramdma_row
perform_vramdma_row_lem m =
    let (src, dst, len) = row_loop-SameTransfer 0x10 m 0 in
    (
      ap (λ s. u16 (s + 0x10)) src,
      ap (λ d. u16 (d + 0x10)) dst,
      ap (λ l. if l == 0 then 0x7F else l - 1) len,
    )

-- The registers after all rows of a transfer.
perform_rows_lem :
    (n : ℕ) (m : Mmu)
    → m.hdma_len ≡ n
    → m.hdma_src < 65536
    → m.hdma_dst < 65536
    → ((perform_rows (suc n) m).hdma_src ≡ u16 (m.hdma_src + 0x10 * suc n))
      × ((perform_rows (suc n) m).hdma_dst ≡ u16 (m.hdma_dst + 0x10 * suc n))
      × ((perform_rows (suc n) m).hdma_len ≡ 0x7F)
unfolding perform_rows
perform_rows_lem zero m e p q =
    let (src, dst, len) = perform_vramdma_row_lem m in
    (omega (arith, src), omega (arith, dst), ground (arith, len))
perform_rows_lem (suc n) m e p q =
    let (src, dst, len) = perform_vramdma_row_lem m in
    let m' = perform_vramdma_row m in
    let (src', dst', len') =
      perform_rows_lem n m' (ground (arith, len)) (omega (arith, src)) (omega (arith, dst)) in
    (omega (arith, src, src'), omega (arith, dst, dst'), len')

-- Memory below the registers after `n` rows.
rb-perform_rows :
    (n : ℕ) (m : Mmu) (a : ℕ)
    → HasVideo m
    → IsSource m.hdma_src (16 * n)
    → IsTarget m.hdma_dst (16 * n)
    → a < 0xFE00
    → rb (perform_rows n m) a ≡ copied m m.hdma_src m.hdma_dst (16 * n) a
unfolding perform_rows
rb-perform_rows zero m a h src dst q = ground arith
rb-perform_rows (suc n) m a h src dst q =
    let s = m.hdma_src in
    let d = m.hdma_dst in
    let r = perform_vramdma_row m in
    let more : 16 * suc n ≡ 16 + 16 * n = omega arith in
    let src' = subst (IsSource s) more src in
    let same_start : s + 0 ≡ s = omega arith in
    let first =
      subst (λ k. IsSource k 16) same_start
        (IsSource-part s (16 + 16 * n) 0 16 (omega arith) src') in
    let row = λ (b : ℕ) (p : b < 0xFE00).
      rb-perform_vramdma_row m b h first (dst.0, omega (arith, dst.1)) p in
    let (r_src, r_dst, r_len) = perform_vramdma_row_lem m in
    let s_next : r.hdma_src ≡ s + 16 =
      omega (arith, r_src, source_below s (16 + 16 * n) (omega arith) src') in
    let d_next : r.hdma_dst ≡ d + 16 = omega (arith, r_dst, dst.1) in
    let rest_src =
      subst (λ k. IsSource k (16 * n)) (sym s_next)
        (IsSource-part s (16 + 16 * n) 16 (16 * n) (omega arith) src') in
    let rest_dst : IsTarget r.hdma_dst (16 * n) =
      (omega (arith, d_next, dst.0), omega (arith, d_next, dst.1)) in
    rb-perform_rows n r a (row 0 (omega arith)).0 rest_src rest_dst q
    ∙ ap (λ k. copied r k r.hdma_dst (16 * n) a) s_next
    ∙ ap (λ k. copied r (s + 16) k (16 * n) a) d_next
    ∙ copied_more m r s d (16 * n) a (λ b p. (row b p).1) src' (dst.0, omega (arith, dst.1)) q
    ∙ ap (λ k. copied m s d k a) (sym more)

-- The bytes that a general transfer copies.
abbrev pub transfer_size : Mmu → ℕ
transfer_size m = 16 * (m.hdma_len + 1)

-- What a general transfer leaves, with the byte that is read at `a` afterwards.
abbrev pub IsTransferred : Mmu → ℕ → ℕ × Mmu → Type 0
IsTransferred m a (ticks, after) =
    (rb after a ≡ copied m m.hdma_src m.hdma_dst (transfer_size m) a)
    × (ticks ≡ 8 * (m.hdma_len + 1))
    × (after.hdma_src ≡ u16 (m.hdma_src + transfer_size m))
    × (after.hdma_dst ≡ u16 (m.hdma_dst + transfer_size m))
    × (after.hdma_status ≡ DmaType.no_dma)
    × (hdma_read after 0xFF55 ≡ 0xFF)

perform_gdma-IsTransferred :
    (m : Mmu) (a : ℕ)
    → HasVideo m
    → IsSource m.hdma_src (transfer_size m)
    → IsTarget m.hdma_dst (transfer_size m)
    → a < 0xFE00
    → m.hdma_src < 65536
    → IsTransferred m a (vramdma_as DmaType.gdma m)
unfolding vramdma_as perform_gdma hdma_read is_no_dma
perform_gdma-IsTransferred m a h source target q p =
    let (src, dst, len) = perform_rows_lem m.hdma_len m refl p (omega (arith, target.1)) in
    let one_more : m.hdma_len + 1 ≡ suc m.hdma_len = omega arith in
    let rows = λ (k : ℕ). perform_rows k m in
    let done = perform_rows (m.hdma_len + 1) m in
    (
      rb_status done DmaType.no_dma a q ∙ rb-perform_rows (m.hdma_len + 1) m a h source target q,
      omega arith,
      ap (λ k. (rows k).hdma_src) one_more ∙ src ∙ omega arith,
      ap (λ k. (rows k).hdma_dst) one_more ∙ dst ∙ omega arith,
      refl,
      ap (λ k. bit_or k 0x80) (ap (λ k. (rows k).hdma_len) one_more ∙ len),
    )

-- A general transfer of `hdma_len + 1` rows of 16 bytes, whose source lies in the cartridge's memory
-- or work RAM and whose target lies in video memory, is made in one go, at 8 ticks for a row.
-- Afterwards every address of the target reads the byte that its address in the source read before,
-- and every other address below 0xFE00 reads as before; both addresses have moved on behind the
-- transfer and wrap at 16 bits, no transfer is left under way, and its register reads 0xFF.
pub general_transfer :
    (m : Mmu) (a : ℕ)
    → m.hdma_status ≡ DmaType.gdma
    → HasVideo m
    → IsSource m.hdma_src (transfer_size m)
    → IsTarget m.hdma_dst (transfer_size m)
    → a < 0xFE00
    → IsTransferred m a (perform_vramdma m)
unfolding perform_vramdma
general_transfer m a gdma h source target q =
    let word = source_below m.hdma_src (transfer_size m) (omega arith) source in
    subst (IsTransferred m a) (ap (λ k. vramdma_as k m) (sym gdma))
      (perform_gdma-IsTransferred m a h source target q (omega (arith, word)))
