-- ===== src/Storage/Tests.antt =====
-- Tests of the saved games, and their theorems on a disk in memory.
use gb_os.Base.{
  ℕ, ◌+◌, ◌<◌, ◌≡◌, ◌≢◌, refl, Bool, true, false, Option, none, some, List, [], ◌∷◌, ◌++◌, arith,
}
use gb_os.Base.{leb, ◌==◌, if◌then◌else◌, length, drop, replicate, length-replicate}
use gb_os.GameBoy.Mbc.Mbc5
use gb_os.GameBoy.Mbc.Mbc5.{Mbc5}
use gb_os.GameBoy.Mbc.Cart.{
  Cart, mbc5, romname, is_battery_backed, dumpram, check_and_reset_ram_updated,
}
use gb_os.Storage.Disk.{Disk, IsDisk}
use gb_os.Storage.SaveHeader.{Bytes}
use gb_os.Storage.SaveFile.{
  SaveResult, LoadResult, slot_lba, padded, sectors_per_slot, choose_slot, save_game, load_game,
}
use gb_os.Storage.SaveFile.Chunks.{chunk}
use gb_os.Storage.SaveFile.Completes.{save_game_completes}
use gb_os.Storage.SaveFile.Saved.{load_game-save_game, save_game_inside, save_game_overlap}
use gb_os.Storage.Sram.{SaveTracker, save_debounce_frames, tick, utf8_bytes, save_sram, load_sram}
use gb_os.Storage.Sram.Sizes.{load_sram-save_sram, load_sram_small}
use gb_os.Storage.Sram.Debounce.{quiet_frames, save_due}

-- A disk in memory on which every write succeeds.
abbrev memory : Disk
memory = record {
  State = ℕ → Option (List ℕ);
  present = λ s. true;
  read = λ s lba. s lba;
  write = λ s lba sector. (true, λ other. if lba == other then some sector else s other);
}

memory-IsDisk : IsDisk memory
memory-IsDisk = record {
  read-write = λ s lba other sector done. refl;
  present-write = λ s lba sector. refl;
}

-- No sector has been written yet.
abbrev blank : ℕ → Option (List ℕ)
blank lba = none

saved :
    (ticks : ℕ) (name ram : Bytes)
    → 0 < length ram
    → (save_game memory blank ticks name ram).0 ≡ SaveResult.success
saved ticks name ram pos =
    save_game_completes memory blank ticks name ram (λ s lba sector. refl) refl pos

abbrev name : Bytes
name = 0x5A ∷ 0x45 ∷ []

abbrev ram : Bytes
ram = 1 ∷ 2 ∷ 3 ∷ []

save_game_completes_example : (save_game memory blank 5 name ram).0 ≡ SaveResult.success
save_game_completes_example =
    save_game_completes memory blank 5 name ram (λ s lba sector. refl) refl (omega arith)

load_game-save_game_example :
    load_game memory (save_game memory blank 5 name ram).1 name (9 ∷ 9 ∷ 9 ∷ 9 ∷ [])
    ≡ (LoadResult.success, ram ++ drop 3 (9 ∷ 9 ∷ 9 ∷ 9 ∷ []))
load_game-save_game_example =
    load_game-save_game memory memory-IsDisk blank 5 name ram (9 ∷ 9 ∷ 9 ∷ 9 ∷ []) (omega arith)
      (omega arith) (omega arith) (saved 5 name ram (omega arith))

save_game_inside_example :
    (k : ℕ) × (choose_slot memory blank name ≡ some k)
    × ((j i : ℕ)
        → j ≢ k
        → i < sectors_per_slot
        → memory.read (save_game memory blank 5 name ram).1 (slot_lba j + i)
          ≡ memory.read blank (slot_lba j + i))
save_game_inside_example =
    save_game_inside memory memory-IsDisk blank 5 name ram (omega arith)
      (saved 5 name ram (omega arith))

abbrev full_ram : Bytes
full_ram = replicate 0x8000 7

length-full_ram : length full_ram ≡ 0x8000
length-full_ram = length-replicate {A = ℕ} 0x8000 7

save_game_overlap_example :
    (k : ℕ) × (choose_slot memory blank name ≡ some k)
    × (memory.read (save_game memory blank 5 name full_ram).1 (slot_lba (k + 1))
        ≡ some (chunk 63 (padded full_ram)))
save_game_overlap_example =
    save_game_overlap memory memory-IsDisk blank 5 name full_ram length-full_ram
      (saved 5 name full_ram (omega (arith, length-full_ram)))

-- A cartridge with a battery and the given RAM.
abbrev cart : Bytes → ℕ → Bool → Cart
cart bytes banks updated = mbc5 (record {
  rom = 0x5A ∷ [];
  ram = bytes;
  rombank = 1;
  rambank = 0;
  ram_on = true;
  ram_updated = updated;
  has_battery = true;
  rombanks = 2;
  rambanks = banks;
})

sram_saved :
    (bytes : Bytes) (banks : ℕ) (updated : Bool)
    → 0 < length bytes
    → (save_sram memory blank 5 (cart bytes banks updated)).0 ≡ SaveResult.success
unfolding save_sram is_battery_backed dumpram Mbc5.is_battery_backed Mbc5.dumpram
sram_saved bytes banks updated pos =
    let some_data : (length bytes == 0) ≡ false = ground arith in
    rw some_data (saved 5 (utf8_bytes (romname (cart bytes banks updated))) bytes pos)

dumpram-cart : (bytes : Bytes) (banks : ℕ) → dumpram (cart bytes banks false) ≡ bytes
unfolding dumpram Mbc5.dumpram
dumpram-cart bytes banks = refl

full_cart_ram : length (dumpram (cart full_ram 4 false)) ≡ 0x8000
unfolding dumpram Mbc5.dumpram
full_cart_ram = length-full_ram

cart_battery : is_battery_backed (cart full_ram 4 false) ≡ true
unfolding is_battery_backed Mbc5.is_battery_backed
cart_battery = refl

load_sram-save_sram_example :
    (e : Cart) × (load_sram memory
        (save_sram memory blank 5 (cart full_ram 4 false)).1
        (cart full_ram 4 false)
      ≡ (LoadResult.success, e))
    × (dumpram e ≡ dumpram (cart full_ram 4 false))
load_sram-save_sram_example =
    load_sram-save_sram memory memory-IsDisk blank 5 (cart full_ram 4 false) (cart full_ram 4 false)
      (omega arith) full_cart_ram (sram_saved full_ram 4 false (omega (arith, length-full_ram)))
      refl cart_battery full_cart_ram

abbrev small_ram : Bytes
small_ram = replicate 0x2000 7

length-small_ram : length small_ram ≡ 0x2000
length-small_ram = length-replicate {A = ℕ} 0x2000 7

small_cart_ram : length (dumpram (cart small_ram 1 false)) < 0x8000
unfolding dumpram Mbc5.dumpram
small_cart_ram = omega (arith, length-small_ram)

load_sram_small_example :
    load_sram memory (save_sram memory blank 5 (cart small_ram 1 false)).1 (cart small_ram 1 false)
    ≡ (LoadResult.size_mismatch, cart small_ram 1 false)
load_sram_small_example =
    load_sram_small memory memory-IsDisk blank 5 (cart small_ram 1 false) (omega arith) tt
      small_cart_ram (sram_saved small_ram 1 false (omega (arith, length-small_ram)))

abbrev tracker : SaveTracker
tracker = record { frames_since_write = 3; pending_save = false }

written_battery : is_battery_backed (cart small_ram 1 true) ≡ true
unfolding is_battery_backed Mbc5.is_battery_backed
written_battery = refl

written_flag : (check_and_reset_ram_updated (cart small_ram 1 true)).0 ≡ true
unfolding check_and_reset_ram_updated Mbc5.check_and_reset_ram_updated
written_flag = refl

save_due_example :
    let (due, rest) = tick tracker (cart small_ram 1 true) in
    (due ≡ false) × ((quiet_frames 121 rest.0 rest.1).0 ≡ leb save_debounce_frames 121)
save_due_example = save_due tracker (cart small_ram 1 true) 121 written_battery written_flag
