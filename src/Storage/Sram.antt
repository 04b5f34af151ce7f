-- ===== src/Storage/Sram.antt =====
-- Cartridge RAM and the saved games: `save_sram`, `load_sram` and the `SaveTracker` of
-- kernel/src/storage/savefile.rs. The `Device` of the source passes these calls on to its
-- cartridge, so a `Cart` stands for it.
pub mod Debounce
pub mod Sizes
use gb_os.Base.{
  ℕ, ◌+◌, ◌*◌, ◌/◌, ◌%◌, Bool, true, false, not, Option, none, some, List, [], ◌∷◌, ◌++◌,
}
use gb_os.Base.{ltb, leb, ◌==◌, if◌then◌else◌, length, replicate}
use gb_os.GameBoy.Result.{StrResult, ok, err}
use gb_os.GameBoy.Mbc.Cart.{
  Cart, romname, is_battery_backed, dumpram, loadram, check_and_reset_ram_updated,
}
use gb_os.Storage.Disk.{Disk}
use gb_os.Storage.SaveHeader.{Bytes}
use gb_os.Storage.SaveFile.{SaveResult, LoadResult, save_game, load_game, has_save}

-- The bytes of a string of characters below 256, in UTF-8.
unfoldable pub utf8_bytes : List ℕ → Bytes
utf8_bytes [] = []
utf8_bytes (c ∷ cs) =
    (if ltb c 0x80 then c ∷ [] else (0xC0 + c / 64) ∷ (0x80 + c % 64) ∷ []) ++ utf8_bytes cs

-- The `match` on the result of `load_game`, with the buffer that it filled.
unfoldable pub load_into : Cart → LoadResult × Bytes → LoadResult × Cart
load_into device (LoadResult.success, ram_buffer) = elim (loadram device ram_buffer) [
  | ok device' ↦ (LoadResult.success, device')
  | err e ↦ (LoadResult.size_mismatch, device)
]
load_into device (other, ram_buffer) = (other, device)

module _ (d : Disk) where
  unfoldable pub save_sram : d.State → ℕ → Cart → SaveResult × d.State
  unfolding utf8_bytes
  save_sram s ticks device =
      if not (is_battery_backed device)
      then (SaveResult.no_battery, s)
      else if length (dumpram device) == 0
      then (SaveResult.invalid_data, s)
      else save_game d s ticks (utf8_bytes (romname device)) (dumpram device)

  unfoldable pub load_sram : d.State → Cart → LoadResult × Cart
  unfolding utf8_bytes load_into
  load_sram s device =
      if not (is_battery_backed device)
      then (LoadResult.no_save_found, device)
      else load_into device (load_game d s (utf8_bytes (romname device)) (replicate 0x8000 0))

  unfoldable pub has_save_for : d.State → Cart → Bool
  unfolding utf8_bytes
  has_save_for s device = has_save d s (utf8_bytes (romname device))

pub record SaveTracker : Type 0 where
  pub frames_since_write : ℕ
  pub pending_save : Bool

abbrev pub save_debounce_frames : ℕ
save_debounce_frames = 120

unfoldable pub new : SaveTracker
new = record { frames_since_write = 0; pending_save = false }

-- One frame: does a save go to the disk now? The frame count stays below 120, so the source's
-- addition of 1 does not overflow its `u32`.
unfoldable pub tick : SaveTracker → Cart → Bool × (SaveTracker × Cart)
tick t device =
    if not (is_battery_backed device)
    then (false, (t, device))
    else (let (updated, device') = check_and_reset_ram_updated device in
        if updated
        then (false, (record { frames_since_write = 0; pending_save = true }, device'))
        else if t.pending_save
        then (let frames = t.frames_since_write + 1 in
            if leb save_debounce_frames frames
            then (true, (record { frames_since_write = 0; pending_save = false }, device'))
            else (false, (record t { frames_since_write = frames }, device')))
        else (false, (t, device')))

abbrev pub is_success : SaveResult → Bool
is_success SaveResult.success = true
is_success _ = false

module _ (d : Disk) where
  -- One frame with its save: whether a save was made, the tracker, the cartridge and the disk.
  unfoldable pub update : d.State → ℕ → SaveTracker → Cart → Bool × (SaveTracker × (Cart × d.State))
  unfolding tick save_sram
  update s ticks t device =
      let (due, rest) = tick t device in
      let (t', device') = rest in
      let (result, s') = save_sram d s ticks device' in
      if due then (is_success result, (t', (device', s'))) else (false, (t', (device', s)))
