-- ===== src/Storage/SaveHeader/Roundtrip.antt =====
-- Headers are read back as they were written.
use gb_os.Base.{
  ℕ, zero, suc, ◌-◌, ◌*◌, ◌/◌, ◌%◌, ◌^◌, ◌<◌, ◌≤◌, ◌≡◌, refl, ap, min, bit_xor, true, List, [], ◌∷◌,
  ◌++◌, arith,
}
use gb_os.Base.{length, take, replicate, get_or, length-append, length-take, length-replicate}
use gb_os.Base.Word.{u32}
use gb_os.Storage.SaveHeader.{
  Bytes, SaveHeader, hash_loop, hash_rom_name, padded_name, new, bytes_eq, is_valid, matches_rom,
  to_le_bytes, from_le_bytes, to_bytes, from_bytes,
}

-- The widths of the fields.
pub record IsWellFormed (h : SaveHeader) : Type 0 where
  pub magic_size : length h.magic ≡ 4
  pub rom_hash_word : h.rom_hash < 2 ^ 32
  pub ram_size_word : h.ram_size < 2 ^ 32
  pub timestamp_word : h.timestamp < 2 ^ 32
  pub rom_name_size : length h.rom_name ≡ 16

le_bytes_back :
    (x : ℕ)
    → x < 2 ^ 32
    → from_le_bytes (x % 256) ((x / 256) % 256) ((x / 65536) % 256) ((x / 16777216) % 256) ≡ x
unfolding from_le_bytes
le_bytes_back x h = omega arith

pub take-append {ℓ} : {A : Type ℓ} (n : ℕ) (xs ys : List A) → length xs ≡ n → take n (xs ++ ys) ≡ xs
take-append zero [] ys e = refl
take-append zero (x ∷ xs) ys e = absurd (omega arith)
take-append (suc n) [] ys e = absurd (omega arith)
take-append (suc n) (x ∷ xs) ys e = ap (λ t. x ∷ t) (take-append n xs ys (omega arith))

-- A header of four magic bytes, written out.
magic_as_list :
    (m : Bytes) → length m ≡ 4 → m ≡ get_or m 0 0 ∷ get_or m 1 0 ∷ get_or m 2 0 ∷ get_or m 3 0 ∷ []
magic_as_list [] e = absurd (omega arith)
magic_as_list (x ∷ []) e = absurd (omega arith)
magic_as_list (x ∷ y ∷ []) e = absurd (omega arith)
magic_as_list (x ∷ y ∷ z ∷ []) e = absurd (omega arith)
magic_as_list (x ∷ y ∷ z ∷ w ∷ []) e = refl
magic_as_list (x ∷ y ∷ z ∷ w ∷ v ∷ m) e = absurd (omega arith)

four_magic :
    (a b c d : ℕ) (h : SaveHeader)
    → h.magic ≡ a ∷ b ∷ c ∷ d ∷ []
    → IsWellFormed h
    → from_bytes (to_bytes h) ≡ h
unfolding from_bytes to_bytes to_le_bytes
four_magic a b c d h e w = ground (
  arith,
  le_bytes_back h.rom_hash w.rom_hash_word,
  le_bytes_back h.ram_size w.ram_size_word,
  le_bytes_back h.timestamp w.timestamp_word,
  take-append 16 h.rom_name (replicate 480 0) w.rom_name_size,
)

-- A header with fields of the right widths is read back from its sector as it was.
from_bytes-to_bytes : (h : SaveHeader) → IsWellFormed h → from_bytes (to_bytes h) ≡ h
from_bytes-to_bytes h w = four_magic _ _ _ _ h (magic_as_list h.magic w.magic_size) w

hash_loop-lt : (hash : ℕ) (name : Bytes) → hash < 2 ^ 32 → hash_loop hash name < 2 ^ 32
unfolding hash_loop
hash_loop-lt hash [] h = h
hash_loop-lt hash (byte ∷ rest) h =
    hash_loop-lt (u32 (bit_xor hash byte * 0x01000193)) rest (omega arith)

pub hash_rom_name-lt : (name : Bytes) → hash_rom_name name < 2 ^ 32
unfolding hash_rom_name
hash_rom_name-lt name = hash_loop-lt 0x811c9dc5 name (omega arith)

length-padded_name : (name : Bytes) → length (padded_name name) ≡ 16
unfolding padded_name
length-padded_name name =
    let n = min (length name) 16 in
    omega (
      arith,
      length-append (take n name) (replicate (16 - n) 0),
      length-take n name,
      length-replicate {A = ℕ} (16 - n) 0,
    )

new-IsWellFormed :
    (ticks : ℕ) (name : Bytes) (size : ℕ) → ticks < 2 ^ 32 → IsWellFormed (new ticks name size)
unfolding new
new-IsWellFormed ticks name size h = ground (arith, hash_rom_name-lt name, length-padded_name name)

-- A new header, read back from its sector, is the new header; for 1 to 0x8000 bytes of RAM it is
-- valid and matches the name.
pub new_read_back :
    (ticks : ℕ) (name : Bytes) (size : ℕ)
    → ticks < 2 ^ 32
    → 0 < size
    → size ≤ 0x8000
    → (from_bytes (to_bytes (new ticks name size)) ≡ new ticks name size)
      × (matches_rom (new ticks name size) name ≡ true)
new_read_back ticks name size h pos small = (
  from_bytes-to_bytes (new ticks name size) (new-IsWellFormed ticks name size h),
  unfold new matches_rom is_valid bytes_eq in ground arith,
)
