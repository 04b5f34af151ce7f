-- ===== src/Storage/SaveFile.antt =====
-- Finding, writing, reading and deleting save slots.
pub mod Chunks
pub mod Saved
pub mod Completes
pub mod Slots
use gb_os.Base.{
  ℕ, zero, suc, ◌+◌, ◌-◌, ◌*◌, ◌/◌, ◌≡◌, min, Bool, true, false, not, ◌&&◌, Option, none, some,
  List, [], ◌∷◌, ◌++◌,
}
use gb_os.Base.{ltb, ◌==◌, if◌then◌else◌, length, take, drop, replicate}
use gb_os.Storage.Disk.{Disk}
use gb_os.Storage.SaveHeader.{
  Bytes, sector_size, SaveHeader, hash_rom_name, new, is_valid, matches_rom, to_bytes, from_bytes,
}

abbrev pub save_area_start : ℕ
save_area_start = 0x10000

abbrev pub sectors_per_slot : ℕ
sectors_per_slot = 64

abbrev pub max_save_slots : ℕ
max_save_slots = 16

pub data SaveResult : Type 0 where
  success no_device no_battery write_error invalid_data : SaveResult

pub data LoadResult : Type 0 where
  success no_device no_save_found read_error hash_mismatch size_mismatch : LoadResult

-- The header's sector of a slot.
unfoldable pub slot_lba : ℕ → ℕ
slot_lba slot = save_area_start + slot * sectors_per_slot

-- `(len + SECTOR_SIZE - 1) / SECTOR_SIZE`.
unfoldable pub sectors_needed : ℕ → ℕ
sectors_needed size = (size + sector_size - 1) / sector_size

-- The data padded with zeros to whole sectors.
unfoldable pub padded : Bytes → Bytes
unfolding sectors_needed
padded ram_data =
    ram_data ++ replicate (sectors_needed (length ram_data) * sector_size - length ram_data) 0

module _ (d : Disk) where
  -- Does the slot hold a valid header with this hash?
  unfoldable pub slot_matches : d.State → ℕ → ℕ → Bool
  slot_matches s target_hash slot = elim (d.read s (slot_lba slot)) [
    | none ↦ false
    | some sector ↦
        let header = from_bytes sector in is_valid header && header.rom_hash == target_hash
  ]

  -- Is the slot unreadable, or without a valid header?
  unfoldable pub slot_empty : d.State → ℕ → Bool
  slot_empty s slot = elim (d.read s (slot_lba slot)) [
    | none ↦ true
    | some sector ↦ not (is_valid (from_bytes sector))
  ]

  -- The two loops over slots, from `slot` with `n` rounds left.
  unfoldable pub matching_loop : d.State → ℕ → ℕ → ℕ → Option ℕ
  matching_loop s target_hash zero slot = none
  matching_loop s target_hash (suc n) slot =
      let rest = matching_loop s target_hash n (slot + 1) in
      if slot_matches s target_hash slot then some slot else rest

  unfoldable pub empty_loop : d.State → ℕ → ℕ → Option ℕ
  empty_loop s zero slot = some 0
  empty_loop s (suc n) slot =
      let rest = empty_loop s n (slot + 1) in if slot_empty s slot then some slot else rest

  unfoldable pub find_save_slot : d.State → Bytes → Option ℕ
  find_save_slot s rom_name =
      if d.present s then matching_loop s (hash_rom_name rom_name) max_save_slots 0 else none

  -- With all slots in use this is slot 0.
  unfoldable pub find_empty_slot : d.State → Option ℕ
  find_empty_slot s = if d.present s then empty_loop s max_save_slots 0 else none

  -- `find_save_slot(rom_name).or_else(|| find_empty_slot())`.
  unfoldable pub choose_slot : d.State → Bytes → Option ℕ
  choose_slot s rom_name = elim (find_save_slot s rom_name) [
    | some slot ↦ some slot
    | none ↦ find_empty_slot s
  ]

  -- The loop over `chunks(SECTOR_SIZE)`, from sector `lba` with `n` chunks left.
  unfoldable pub write_chunks : ℕ → d.State → ℕ → Bytes → Bool × d.State
  write_chunks zero s lba bytes = (true, s)
  write_chunks (suc n) s lba bytes =
      let (done, s') = d.write s lba (take sector_size bytes) in
      let rest = write_chunks n s' (lba + 1) (drop sector_size bytes) in
      if done then rest else (false, s')

  -- The header's write and the data's.
  unfoldable pub write_slot : d.State → ℕ → ℕ → Bytes → Bytes → SaveResult × d.State
  write_slot s ticks slot rom_name ram_data =
      let base_lba = slot_lba slot in
      let header_bytes = to_bytes (new ticks rom_name (length ram_data)) in
      let (headed, s1) = d.write s base_lba header_bytes in
      let (done, s2) =
        write_chunks (sectors_needed (length ram_data)) s1 (base_lba + 1) (padded ram_data) in
      if headed
      then (if done then (SaveResult.success, s2) else (SaveResult.write_error, s2))
      else (SaveResult.write_error, s1)

  -- `ticks` is what the PIT's counter reads.
  unfoldable pub save_game : d.State → ℕ → Bytes → Bytes → SaveResult × d.State
  save_game s ticks rom_name ram_data =
      if not (d.present s)
      then (SaveResult.no_device, s)
      else if length ram_data == 0
      then (SaveResult.invalid_data, s)
      else elim (choose_slot s rom_name) [
        | none ↦ (SaveResult.write_error, s)
        | some slot ↦ write_slot s ticks slot rom_name ram_data
      ]

  -- The data loop of `load_game`: `n` sectors left from `lba`, `left` bytes of the save left; what
  -- is read so far stands before `tail`, the rest of the caller's buffer.
  unfoldable pub read_chunks : d.State → ℕ → ℕ → ℕ → Bytes → Bytes → LoadResult × Bytes
  read_chunks s zero lba left got tail = (LoadResult.success, got ++ tail)
  read_chunks s (suc n) lba left got tail =
      let copy_len = min left sector_size in
      elim (d.read s lba) [
        | none ↦ (LoadResult.read_error, got ++ tail)
        | some sector ↦
            read_chunks s n (lba + 1) (left - copy_len) (got ++ take copy_len sector)
              (drop copy_len tail)
      ]

  -- `load_game` into `ram_buffer`; the second part is the buffer afterwards.
  unfoldable pub load_game : d.State → Bytes → Bytes → LoadResult × Bytes
  load_game s rom_name ram_buffer =
      if not (d.present s)
      then (LoadResult.no_device, ram_buffer)
      else elim (find_save_slot s rom_name) [
        | none ↦ (LoadResult.no_save_found, ram_buffer)
        | some slot ↦ elim (d.read s (slot_lba slot)) [
          | none ↦ (LoadResult.read_error, ram_buffer)
          | some sector ↦
              let header = from_bytes sector in
              if not (matches_rom header rom_name)
              then (LoadResult.hash_mismatch, ram_buffer)
              else if ltb (length ram_buffer) header.ram_size
              then (LoadResult.size_mismatch, ram_buffer)
              else read_chunks s (sectors_needed header.ram_size) (slot_lba slot + 1)
                  header.ram_size [] ram_buffer
        ]
      ]

  unfoldable pub has_save : d.State → Bytes → Bool
  has_save s rom_name = elim (find_save_slot s rom_name) [ none ↦ false | some slot ↦ true ]

  unfoldable pub delete_save : d.State → Bytes → Bool × d.State
  delete_save s rom_name =
      if not (d.present s) then (false, s) else elim (find_save_slot s rom_name) [
        | none ↦ (false, s)
        | some slot ↦ d.write s (slot_lba slot) (replicate sector_size 0)
      ]
