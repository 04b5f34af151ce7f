-- ===== src/Storage/SaveFile/Slots.antt =====
-- Which slot is found, and which one a save goes to.
use gb_os.Base.{ℕ, zero, suc, ◌+◌, ◌<◌, ◌≤◌, ◌≡◌, ◌⊎◌, inl, inr, true, false, none, some, arith}
use gb_os.Base.{Option-cases, Bool-cases}
use gb_os.Storage.Disk.{Disk}
use gb_os.Storage.SaveHeader.{Bytes, hash_rom_name}
use gb_os.Storage.SaveFile.{
  max_save_slots, slot_matches, matching_loop, empty_loop, find_save_slot, find_empty_slot,
  choose_slot,
}

module _ (d : Disk) where
  -- Slot `k` is the first of `slot .. slot + n` to hold a save with the hash.
  pub record IsFirst (s : d.State) (hash n slot k : ℕ) : Type 0 where
    pub from : slot ≤ k
    pub below : k < slot + n
    pub matches : slot_matches d s hash k ≡ true
    pub earlier : (j : ℕ) → slot ≤ j → j < k → slot_matches d s hash j ≡ false

  matching_loop-none :
      (s : d.State) (hash n slot : ℕ)
      → matching_loop d s hash n slot ≡ none
      → (j : ℕ) → slot ≤ j
      → j < slot + n
      → slot_matches d s hash j ≡ false
  unfolding matching_loop
  matching_loop-none s hash zero slot e j from below = absurd (omega arith)
  matching_loop-none s hash (suc n) slot e j from below =
      let e' : matching_loop d s hash n (slot + 1) ≡ none = ground arith in
      ground (arith, matching_loop-none s hash n (slot + 1) e' j)

  matching_loop-some :
      (s : d.State) (hash n slot k : ℕ)
      → matching_loop d s hash n slot ≡ some k
      → IsFirst s hash n slot k
  unfolding matching_loop
  matching_loop-some s hash zero slot k e = ground arith
  matching_loop-some s hash (suc n) slot k e = elim (Bool-cases (slot_matches d s hash slot)) [
    | inl hit ↦
        let k_is : slot ≡ k = ground arith in
        record {
          from = omega arith;
          below = omega arith;
          matches = ground arith;
          earlier = λ j from lt. absurd (omega arith);
        }
    | inr differ ↦
        let e' : matching_loop d s hash n (slot + 1) ≡ some k = ground arith in
        let f = matching_loop-some s hash n (slot + 1) k e' in
        record {
          from = omega (arith, f.from);
          below = omega (arith, f.below);
          matches = f.matches;
          earlier = λ j from lt. ground (arith, f.earlier j);
        }
  ]

  first-matching_loop :
      (s : d.State) (hash n slot k : ℕ)
      → IsFirst s hash n slot k
      → matching_loop d s hash n slot ≡ some k
  unfolding matching_loop
  first-matching_loop s hash zero slot k f = absurd (omega (arith, f.from, f.below))
  first-matching_loop s hash (suc n) slot k f = elim (Bool-cases (slot_matches d s hash slot)) [
    | inl hit ↦ ground (arith, f.earlier slot)
    | inr differ ↦
        let g : (slot + 1 ≤ k) × (k < slot + 1 + n) = ground (arith, f.matches) in
        ground (
          arith,
          first-matching_loop s hash n (slot + 1) k (record {
            from = g.0;
            below = g.1;
            matches = f.matches;
            earlier = λ j from lt. f.earlier j (omega arith) lt;
          }),
        )
  ]

  empty_loop-lt :
      (s : d.State) (n slot k : ℕ) → empty_loop d s n slot ≡ some k → (k ≡ 0) ⊎ (k < slot + n)
  unfolding empty_loop
  empty_loop-lt s zero slot k e = ground arith
  empty_loop-lt s (suc n) slot k e = ground (arith, empty_loop-lt s n (slot + 1) k)

  -- What `find_save_slot` says of the slots.
  pub find_save_slot-some :
      (s : d.State) (name : Bytes) (k : ℕ)
      → find_save_slot d s name ≡ some k
      → IsFirst s (hash_rom_name name) max_save_slots 0 k
  unfolding find_save_slot
  find_save_slot-some s name k e =
      matching_loop-some s (hash_rom_name name) max_save_slots 0 k (ground arith)

  pub find_save_slot-none :
      (s : d.State) (name : Bytes)
      → d.present s ≡ true
      → find_save_slot d s name ≡ none
      → (j : ℕ) → j < max_save_slots
      → slot_matches d s (hash_rom_name name) j ≡ false
  unfolding find_save_slot
  find_save_slot-none s name h e j lt =
      matching_loop-none s (hash_rom_name name) max_save_slots 0 (ground arith) j (omega arith) lt

  pub find_save_slot-first :
      (s : d.State) (name : Bytes) (k : ℕ)
      → d.present s ≡ true
      → IsFirst s (hash_rom_name name) max_save_slots 0 k
      → find_save_slot d s name ≡ some k
  unfolding find_save_slot
  find_save_slot-first s name k h f =
      ground (arith, first-matching_loop s (hash_rom_name name) max_save_slots 0 k f)

  -- The slot chosen for a save is one of the sixteen, and no slot before it has the name's hash.
  pub choose_slot_lem :
      (s : d.State) (name : Bytes) (k : ℕ)
      → d.present s ≡ true
      → choose_slot d s name ≡ some k
      → (k < max_save_slots) × ((j : ℕ) → j < k → slot_matches d s (hash_rom_name name) j ≡ false)
  unfolding choose_slot find_empty_slot
  choose_slot_lem s name k h e = elim (Option-cases (find_save_slot d s name)) [
    | inl missing ↦
        let lt : k < max_save_slots = ground (arith, empty_loop-lt s max_save_slots 0 k) in
        (lt, λ j before. find_save_slot-none s name h missing j (omega arith))
    | inr (k', found) ↦
        let f = find_save_slot-some s name k' found in
        let same_slot : k' ≡ k = ground arith in
        (omega (arith, f.below), λ j before. f.earlier j (omega arith) (omega arith))
  ]
