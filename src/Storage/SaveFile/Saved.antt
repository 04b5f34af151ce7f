-- ===== src/Storage/SaveFile/Saved.antt =====
-- What a save leaves on the disk, and what loading then gives.
use gb_os.Base.{
  ℕ, ◌+◌, ◌*◌, ◌^◌, ◌<◌, ◌≤◌, ◌≡◌, ◌≢◌, ◌⊎◌, inl, inr, refl, ◌∙◌, ap, sym, true, false, ◌&&◌, some,
  [], ◌++◌, arith,
}
use gb_os.Base.{ltb, ◌==◌, if◌then◌else◌, Option-cases, length, take, drop}
use mathlib.Core.Path.{subst}
use gb_os.Storage.Disk.{Disk, IsDisk}
use gb_os.Storage.SaveHeader.{
  Bytes, sector_size, hash_rom_name, is_valid, matches_rom, new, to_bytes, from_bytes,
}
use gb_os.Storage.SaveHeader.Roundtrip.{new_read_back, take-append}
use gb_os.Storage.SaveFile.{
  SaveResult, LoadResult, slot_lba, sectors_needed, padded, sectors_per_slot, slot_matches,
  find_save_slot, choose_slot, write_chunks, write_slot, save_game, load_game,
}
use gb_os.Storage.SaveFile.Chunks.{chunk, write_chunks-Wrote, read_chunks_lem}
use gb_os.Storage.SaveFile.Slots.{find_save_slot-first, choose_slot_lem}

zero_le : (k : ℕ) → 0 ≤ k
zero_le k = omega arith

-- Padding does not change the data.
take-padded : (ram : Bytes) → take (length ram) (padded ram) ≡ ram
unfolding padded
take-padded ram = take-append (length ram) ram _ refl

module _ (d : Disk) (laws : IsDisk d) where
  -- The disk `s'` holds in slot `k` a save that was made from the disk `s`.
  pub record IsSaved (s : d.State) (ticks : ℕ) (name ram : Bytes) (k : ℕ) (s' : d.State)
      : Type 0 where
    pub some_data : 0 < length ram
    pub was_attached : d.present s ≡ true
    pub chosen : choose_slot d s name ≡ some k
    pub attached : d.present s' ≡ true
    pub headed : d.read s' (slot_lba k) ≡ some (to_bytes (new ticks name (length ram)))
    pub data_at :
        (i : ℕ)
        → i < sectors_needed (length ram)
        → d.read s' (slot_lba k + 1 + i) ≡ some (chunk i (padded ram))
    pub outside :
        (other : ℕ)
        → (other < slot_lba k) ⊎ (slot_lba k + 1 + sectors_needed (length ram) ≤ other)
        → d.read s' other ≡ d.read s other

  write_slot-IsSaved :
      (s : d.State) (ticks : ℕ) (name ram : Bytes) (k : ℕ)
      → 0 < length ram
      → d.present s ≡ true
      → choose_slot d s name ≡ some k
      → (write_slot d s ticks k name ram).0 ≡ SaveResult.success
      → IsSaved s ticks name ram k (write_slot d s ticks k name ram).1
  unfolding write_slot
  write_slot-IsSaved s ticks name ram k pos att chosen h =
      let header = to_bytes (new ticks name (length ram)) in
      let base = slot_lba k in
      let n = sectors_needed (length ram) in
      let s1 = (d.write s base header).1 in
      let done : (d.write s base header).0 ≡ true = ground arith in
      let run = write_chunks d n s1 (base + 1) (padded ram) in
      let ran : run.0 ≡ true = ground arith in
      let w = write_chunks-Wrote d laws n s1 (base + 1) (padded ram) ran in
      let same_state : (write_slot d s ticks k name ram).1 ≡ run.1 = ground arith in
      let written = λ (other : ℕ). laws.read-write s base other header done in
      let at_self : (a : ℕ) → (if a == a then some header else d.read s a) ≡ some header =
        λ a. ground arith in
      subst (IsSaved s ticks name ram k) (sym same_state) (record {
        some_data = pos;
        was_attached = att;
        chosen = chosen;
        attached = w.attached ∙ laws.present-write s base header ∙ att;
        headed = w.outside base (inl (omega arith)) ∙ written base ∙ at_self base;
        data_at = w.inside;
        outside = λ other o. ground (arith, w.outside other, written other);
      })

  -- A save that succeeds has stored the data in the slot that was chosen.
  pub save_game-IsSaved :
      (s : d.State) (ticks : ℕ) (name ram : Bytes)
      → (save_game d s ticks name ram).0 ≡ SaveResult.success
      → (k : ℕ) × IsSaved s ticks name ram k (save_game d s ticks name ram).1
  unfolding save_game
  save_game-IsSaved s ticks name ram h = elim (Option-cases (choose_slot d s name)) [
    | inl missing ↦ ground arith
    | inr (k, chosen) ↦
        let att : d.present s ≡ true = ground arith in
        let pos : 0 < length ram = ground arith in
        let e : save_game d s ticks name ram ≡ write_slot d s ticks k name ram = ground arith in
        (
          k,
          subst (λ r. IsSaved s ticks name ram k r.1) (sym e)
              (write_slot-IsSaved s ticks name ram k pos att chosen (ap (λ r. r.0) (sym e) ∙ h)),
        )
  ]

  slot_matches-read :
      (s : d.State) (hash j : ℕ) (sector : Bytes)
      → d.read s (slot_lba j) ≡ some sector
      → slot_matches d s hash j
        ≡ (is_valid (from_bytes sector) && (from_bytes sector).rom_hash == hash)
  unfolding slot_matches
  slot_matches-read s hash j sector e = rw (e, slot_matches) refl

  slot_matches-same :
      (s s' : d.State) (hash j : ℕ)
      → d.read s' (slot_lba j) ≡ d.read s (slot_lba j)
      → slot_matches d s' hash j ≡ slot_matches d s hash j
  unfolding slot_matches
  slot_matches-same s s' hash j e = rw (e, slot_matches) refl

  -- After the save, the slot of the save is the one that is found for its name.
  saved-IsFirst :
      (s s' : d.State) (ticks : ℕ) (name ram : Bytes) (k : ℕ)
      → ticks < 2 ^ 32
      → length ram ≤ 0x8000
      → IsSaved s ticks name ram k s'
      → find_save_slot d s' name ≡ some k
  unfolding matches_rom
  saved-IsFirst s s' ticks name ram k word small v =
      let hash = hash_rom_name name in
      let choice = choose_slot_lem d s name k v.was_attached v.chosen in
      let back = new_read_back ticks name (length ram) word v.some_data small in
      let earlier : (j : ℕ) → j < k → slot_matches d s' hash j ≡ false = λ j lt.
        let before : slot_lba j < slot_lba k = unfold slot_lba in omega arith in
        slot_matches-same s s' hash j (v.outside (slot_lba j) (inl before)) ∙ choice.1 j lt in
      find_save_slot-first d s' name k v.attached (record {
        from = zero_le k;
        below = choice.0;
        matches =
            slot_matches-read s' hash k (to_bytes (new ticks name (length ram))) v.headed
            ∙ rw (back.0) (back.1);
        earlier = λ j from lt. earlier j lt;
      })

  load_saved :
      (s s' : d.State) (ticks : ℕ) (name ram : Bytes) (k : ℕ) (buffer : Bytes)
      → ticks < 2 ^ 32
      → length ram ≤ 0x8000
      → length ram ≤ length buffer
      → IsSaved s ticks name ram k s'
      → load_game d s' name buffer ≡ (LoadResult.success, ram ++ drop (length ram) buffer)
  unfolding load_game
  load_saved s s' ticks name ram k buffer word small fits v =
      let n = length ram in
      let header = new ticks name n in
      let back = new_read_back ticks name n word v.some_data small in
      let size : header.ram_size ≡ n = unfold new in omega arith in
      let found = saved-IsFirst s s' ticks name ram k word small v in
      let att = v.attached in
      let headed = v.headed in
      let room : ltb (length buffer) n ≡ false = ground arith in
      let covers : n ≤ sectors_needed n * sector_size = unfold sectors_needed in omega arith in
      let rest =
        read_chunks_lem d laws (sectors_needed n) s' (slot_lba k + 1) n (padded ram) [] buffer
          v.data_at covers in
      rw (load_game, att, found, headed, back.0, back.1, size, room, rest, take-padded ram) refl

  -- On a working disk, a save of at most 0x8000 bytes that succeeds is loaded back into the start
  -- of any buffer with room for it, and the rest of the buffer is as before.
  pub load_game-save_game :
      (s : d.State) (ticks : ℕ) (name ram buffer : Bytes)
      → ticks < 2 ^ 32
      → length ram ≤ 0x8000
      → length ram ≤ length buffer
      → (save_game d s ticks name ram).0 ≡ SaveResult.success
      → load_game d (save_game d s ticks name ram).1 name buffer
        ≡ (LoadResult.success, ram ++ drop (length ram) buffer)
  load_game-save_game s ticks name ram buffer word small fits h =
      let (k, v) = save_game-IsSaved s ticks name ram h in
      let s' = (save_game d s ticks name ram).1 in
      load_saved s s' ticks name ram k buffer word small fits v

  -- On a working disk, a save of at most 0x7E00 bytes, 63 sectors, that succeeds stays inside the
  -- slot chosen for it: every sector of another slot is as before.
  pub save_game_inside :
      (s : d.State) (ticks : ℕ) (name ram : Bytes)
      → length ram ≤ 0x7E00
      → (save_game d s ticks name ram).0 ≡ SaveResult.success
      → (k : ℕ) × (choose_slot d s name ≡ some k)
        × ((j i : ℕ)
            → j ≢ k
            → i < sectors_per_slot
            → d.read (save_game d s ticks name ram).1 (slot_lba j + i) ≡ d.read s (slot_lba j + i))
  save_game_inside s ticks name ram small h =
      let (k, v) = save_game-IsSaved s ticks name ram h in
      (
        k,
        v.chosen,
        λ j i ne lt. v.outside (slot_lba j + i) (unfold slot_lba sectors_needed in ground arith),
      )

  -- On a working disk, a save of 32 KiB that succeeds leaves its last sector where the slot after
  -- the one chosen for it has its header.
  pub save_game_overlap :
      (s : d.State) (ticks : ℕ) (name ram : Bytes)
      → length ram ≡ 0x8000
      → (save_game d s ticks name ram).0 ≡ SaveResult.success
      → (k : ℕ) × (choose_slot d s name ≡ some k)
        × (d.read (save_game d s ticks name ram).1 (slot_lba (k + 1))
            ≡ some (chunk 63 (padded ram)))
  save_game_overlap s ticks name ram full h =
      let (k, v) = save_game-IsSaved s ticks name ram h in
      let e : slot_lba k + 1 + 63 ≡ slot_lba (k + 1) = unfold slot_lba in omega arith in
      let lt : 63 < sectors_needed (length ram) = unfold sectors_needed in omega arith in
      (
        k,
        v.chosen,
        subst (λ a. d.read (save_game d s ticks name ram).1 a ≡ some (chunk 63 (padded ram))) e
            (v.data_at 63 lt),
      )
