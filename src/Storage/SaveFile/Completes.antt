-- ===== src/Storage/SaveFile/Completes.antt =====
-- When a save succeeds.
use gb_os.Base.{ℕ, zero, suc, ◌+◌, ◌<◌, ◌≡◌, inl, inr, refl, true, false, some, arith}
use gb_os.Base.{◌==◌, if◌then◌else◌, Option-cases, drop, take, length}
use gb_os.Storage.Disk.{Disk}
use gb_os.Storage.SaveHeader.{Bytes, sector_size, new, to_bytes}
use gb_os.Storage.SaveFile.{
  SaveResult, max_save_slots, slot_lba, sectors_needed, padded, slot_empty, empty_loop,
  find_empty_slot, find_save_slot, choose_slot, write_chunks, write_slot, save_game,
}

module _ (d : Disk) where
  -- No write fails.
  abbrev pub WritesSucceed : Type 0
  WritesSucceed = (s : d.State) (lba : ℕ) (sector : Bytes) → (d.write s lba sector).0 ≡ true

  empty_loop-some : (s : d.State) (n slot : ℕ) → (k : ℕ) × (empty_loop d s n slot ≡ some k)
  unfolding empty_loop
  empty_loop-some s zero slot = (0, refl)
  empty_loop-some s (suc n) slot =
      let (k, e) = empty_loop-some s n (slot + 1) in
      ((if slot_empty d s slot then slot else k), ground arith)

  -- With a disk there is always a slot.
  choose_slot-some :
      (s : d.State) (name : Bytes) → d.present s ≡ true → (k : ℕ) × (choose_slot d s name ≡ some k)
  unfolding choose_slot find_empty_slot
  choose_slot-some s name h = elim (Option-cases (find_save_slot d s name)) [
    | inl missing ↦ let (k, e) = empty_loop-some s max_save_slots 0 in (k, ground arith)
    | inr (k, found) ↦ (k, ground arith)
  ]

  write_chunks_done :
      (n : ℕ) (s : d.State) (lba : ℕ) (bytes : Bytes)
      → WritesSucceed
      → (write_chunks d n s lba bytes).0 ≡ true
  unfolding write_chunks
  write_chunks_done zero s lba bytes w = refl
  write_chunks_done (suc n) s lba bytes w =
      let s' = (d.write s lba (take sector_size bytes)).1 in
      ground (
        arith,
        w s lba (take sector_size bytes),
        write_chunks_done n s' (lba + 1) (drop sector_size bytes) w,
      )

  write_slot_done :
      (s : d.State) (ticks slot : ℕ) (name ram : Bytes)
      → WritesSucceed
      → (write_slot d s ticks slot name ram).0 ≡ SaveResult.success
  unfolding write_slot
  write_slot_done s ticks slot name ram w =
      let header = to_bytes (new ticks name (length ram)) in
      let s1 = (d.write s (slot_lba slot) header).1 in
      let n = sectors_needed (length ram) in
      rw (w s (slot_lba slot) header, write_chunks_done n s1 (slot_lba slot + 1) (padded ram) w)
        refl

  -- On a disk that is there and on which no write fails, saving any RAM but an empty one succeeds,
  -- whatever the slots hold.
  pub save_game_completes :
      (s : d.State) (ticks : ℕ) (name ram : Bytes)
      → WritesSucceed
      → d.present s ≡ true
      → 0 < length ram
      → (save_game d s ticks name ram).0 ≡ SaveResult.success
  unfolding save_game
  save_game_completes s ticks name ram w h pos =
      let (k, chosen) = choose_slot-some s name h in
      let some_data : (length ram == 0) ≡ false = ground arith in
      rw (h, some_data, chosen) (write_slot_done s ticks k name ram w)
