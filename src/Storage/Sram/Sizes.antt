-- ===== src/Storage/Sram/Sizes.antt =====
-- Saving a cartridge's RAM and loading it, by the size of the RAM.
use gb_os.Base.{ℕ, ◌^◌, ◌<◌, ◌≤◌, ◌≡◌, refl, ◌∙◌, ap, sym, true, [], ◌++◌, arith}
use gb_os.Base.{length, drop, replicate, length-append, length-drop, length-replicate, drop_all}
use mathlib.Core.List.{append-nil}
use gb_os.GameBoy.Result.{ok, err}
use gb_os.GameBoy.Mbc.Cart.{Cart, romname, is_battery_backed, dumpram, loadram}
use gb_os.GameBoy.Mbc.Cart.Saves.{HasRam, dumpram-loadram, loadram_other_length}
use gb_os.Storage.Disk.{Disk, IsDisk}
use gb_os.Storage.SaveHeader.{Bytes}
use gb_os.Storage.SaveFile.{SaveResult, LoadResult, save_game, load_game}
use gb_os.Storage.SaveFile.Saved.{load_game-save_game}
use gb_os.Storage.Sram.{utf8_bytes, load_into, save_sram, load_sram}

module _ (d : Disk) (laws : IsDisk d) where
  -- What the loader's buffer holds after a save that succeeded.
  saved_buffer :
      (s : d.State) (ticks : ℕ) (c : Cart)
      → ticks < 2 ^ 32
      → length (dumpram c) ≤ 0x8000
      → (save_sram d s ticks c).0 ≡ SaveResult.success
      → (is_battery_backed c ≡ true)
        × (load_game d (save_sram d s ticks c).1 (utf8_bytes (romname c)) (replicate 0x8000 0)
            ≡ (LoadResult.success, dumpram c ++ drop (length (dumpram c)) (replicate 0x8000 0)))
  unfolding save_sram
  saved_buffer s ticks c word small h =
      let name = utf8_bytes (romname c) in
      let e : save_sram d s ticks c ≡ save_game d s ticks name (dumpram c) = ground arith in
      let ok_save : (save_game d s ticks name (dumpram c)).0 ≡ SaveResult.success =
        ap (λ r. r.0) (sym e) ∙ h in
      let battery : is_battery_backed c ≡ true = ground arith in
      let fits : length (dumpram c) ≤ length (replicate 0x8000 0) =
        omega (arith, length-replicate {A = ℕ} 0x8000 0) in
      (
        battery,
        ap (λ r. load_game d r.1 name (replicate 0x8000 0)) e
            ∙ load_game-save_game d laws s ticks name (dumpram c) (replicate 0x8000 0) word small
                fits ok_save,
      )

  load_sram-eq :
      (s : d.State) (c : Cart) (bytes : Bytes)
      → is_battery_backed c ≡ true
      → load_game d s (utf8_bytes (romname c)) (replicate 0x8000 0) ≡ (LoadResult.success, bytes)
      → load_sram d s c ≡ elim (loadram c bytes) [
        | ok c' ↦ (LoadResult.success, c')
        | err e ↦ (LoadResult.size_mismatch, c)
      ]
  unfolding load_sram load_into
  load_sram-eq s c bytes b e = rw (load_sram, b) (ap (load_into c) e)

  -- On a working disk, a RAM of 32 KiB that was saved with success is loaded into any cartridge
  -- with a battery, the same name and a RAM of that size.
  pub load_sram-save_sram :
      (s : d.State) (ticks : ℕ) (c c' : Cart)
      → ticks < 2 ^ 32
      → length (dumpram c) ≡ 0x8000
      → (save_sram d s ticks c).0 ≡ SaveResult.success
      → romname c' ≡ romname c
      → is_battery_backed c' ≡ true
      → length (dumpram c') ≡ 0x8000
      → (e : Cart) × (load_sram d (save_sram d s ticks c).1 c' ≡ (LoadResult.success, e))
        × (dumpram e ≡ dumpram c)
  load_sram-save_sram s ticks c c' word full h name battery full' =
      let (_, loaded) = saved_buffer s ticks c word (omega arith) h in
      let (e, done, same_ram) = dumpram-loadram c' (dumpram c) (omega arith) in
      let rest : drop (length (dumpram c)) (replicate 0x8000 0) ≡ [] =
        drop_all (length (dumpram c)) (replicate 0x8000 0)
          (omega (arith, length-replicate {A = ℕ} 0x8000 0)) in
      let bytes : dumpram c ++ drop (length (dumpram c)) (replicate 0x8000 0) ≡ dumpram c =
        ap (λ z. dumpram c ++ z) rest ∙ append-nil (dumpram c) in
      let s' = (save_sram d s ticks c).1 in
      let loaded' = ap (λ z. load_game d s' (utf8_bytes z) (replicate 0x8000 0)) name ∙ loaded in
      let loaded'' = loaded' ∙ ap (λ z. (LoadResult.success, z)) bytes in
      (e, load_sram-eq s' c' (dumpram c) battery loaded'' ∙ rw done refl, same_ram)

  -- On a working disk, a RAM of less than 32 KiB that was saved with success is not loaded back into
  -- the cartridge it came from: the result is a size mismatch and the cartridge is as it was.
  pub load_sram_small :
      (s : d.State) (ticks : ℕ) (c : Cart)
      → ticks < 2 ^ 32
      → HasRam c
      → length (dumpram c) < 0x8000
      → (save_sram d s ticks c).0 ≡ SaveResult.success
      → load_sram d (save_sram d s ticks c).1 c ≡ (LoadResult.size_mismatch, c)
  load_sram_small s ticks c word has small h =
      let (battery, loaded) = saved_buffer s ticks c word (omega arith) h in
      let s' = (save_sram d s ticks c).1 in
      let n = length (dumpram c) in
      let bytes = dumpram c ++ drop n (replicate 0x8000 0) in
      let size : length bytes ≡ 0x8000 = omega (
        arith,
        length-append (dumpram c) (drop n (replicate 0x8000 0)),
        length-drop {A = ℕ} n (replicate 0x8000 0),
        length-replicate {A = ℕ} 0x8000 0,
      ) in
      let refused = loadram_other_length c bytes has (λ e. omega arith) in
      load_sram-eq s' c bytes battery loaded ∙ rw refused refl
