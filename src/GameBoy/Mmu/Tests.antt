-- ===== src/GameBoy/Mmu/Tests.antt =====
-- The memory map's theorems at its first state.
use gb_os.Base.{ℕ, zero, suc, ◌≡◌, refl, ap, inl, [], length, replicate, length-replicate, arith}
use gb_os.GameBoy.Mode.{GbMode}
use gb_os.GameBoy.Gpu
use gb_os.GameBoy.Mbc.Cart.{mbc0}
use gb_os.GameBoy.Mmu.{DmaType, Mmu, fill_random, rb, rw}
use gb_os.GameBoy.Mmu.Write.{ww}
use gb_os.GameBoy.Mmu.Write.Cycle.{perform_vramdma}
use gb_os.GameBoy.Mmu.Write.Copied.{HasVideo}
use gb_os.GameBoy.Mmu.Write.Transfers.{IsTransferred, general_transfer}
use gb_os.GameBoy.Mmu.New.{initial}
use gb_os.GameBoy.Mmu.Peek.{peek}
use gb_os.GameBoy.Mmu.Peek.Same.{peek-eq-rb}
use gb_os.GameBoy.Mmu.Wram.{IsBanked, rw-ww}

length-fill_random : (n x : ℕ) → length (fill_random n x) ≡ n
unfolding fill_random
length-fill_random zero x = refl
length-fill_random (suc n) x = ap suc (length-fill_random n _)

-- A Classic machine with an empty cartridge.
abbrev machine : Mmu
machine = initial (mbc0 (record { rom = [] })) Gpu.new GbMode.classic

machine-IsBanked : IsBanked machine
unfolding initial
machine-IsBanked = record {
  size = length-fill_random 0x8000 42;
  bank_min = omega arith;
  bank_max = omega arith;
}

peek-eq-rb_example : peek machine 0xD158 ≡ rb machine 0xD158
unfolding initial Gpu.new
peek-eq-rb_example = peek-eq-rb machine 0xD158 refl (omega arith) (λ e. omega arith)

rw-ww_example : rw (ww machine 0xCFFF 0xBEEF) 0xCFFF ≡ 0xBEEF
rw-ww_example =
    rw-ww machine 0xCFFF 0xBEEF machine-IsBanked (omega arith) (omega arith) (omega arith)

-- Two rows from 0x4000 to 0x8800.
abbrev transferring : Mmu
transferring = record machine {
  hdma_src = 0x4000;
  hdma_dst = 0x8800;
  hdma_len = 1;
  hdma_status = DmaType.gdma;
}

transferring-HasVideo : HasVideo transferring
unfolding initial Gpu.new replicate
transferring-HasVideo = record {
  video_size = length-replicate {A = ℕ} 0x4000 0;
  video_bank = omega arith;
}

-- The last byte of the target reads the last one of the source.
general_transfer_example : IsTransferred transferring 0x881F (perform_vramdma transferring)
general_transfer_example =
    general_transfer transferring 0x881F refl transferring-HasVideo (inl (omega arith))
      (omega arith) (omega arith)
