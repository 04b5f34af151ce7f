-- ===== src/Storage/SaveHeader.antt =====
-- The header sector of a save slot.
pub mod Roundtrip
use gb_os.Base.{
  ℕ, ◌+◌, ◌-◌, ◌*◌, ◌/◌, ◌%◌, ◌^◌, ◌<◌, ◌≡◌, bit_xor, min, Bool, true, false, ◌&&◌, List, [], ◌∷◌,
  ◌++◌,
}
use gb_os.Base.{ltb, leb, ◌==◌, length, take, drop, replicate, get_or}
use gb_os.Base.Word.{u32}

abbrev pub Bytes : Type 0
Bytes = List ℕ

abbrev pub sector_size : ℕ
sector_size = 512

-- "GBSV".
abbrev pub save_magic : Bytes
save_magic = 0x47 ∷ 0x42 ∷ 0x53 ∷ 0x56 ∷ []

-- The 480 reserved bytes are zero in every header that the source builds, and `to_bytes` and
-- `from_bytes` do not look at them: they have no field here.
pub record SaveHeader : Type 0 where
  pub magic : Bytes
  pub rom_hash : ℕ
  pub ram_size : ℕ
  pub timestamp : ℕ
  pub rom_name : Bytes

-- FNV-1a over the name's bytes, from a hash so far.
unfoldable pub hash_loop : ℕ → Bytes → ℕ
hash_loop hash [] = hash
hash_loop hash (byte ∷ rest) = hash_loop (u32 (bit_xor hash byte * 0x01000193)) rest

unfoldable pub hash_rom_name : Bytes → ℕ
unfolding hash_loop
hash_rom_name name = hash_loop 0x811c9dc5 name

-- The name, cut or padded with zeros to 16 bytes.
unfoldable pub padded_name : Bytes → Bytes
padded_name name =
    let copy_len = min (length name) 16 in take copy_len name ++ replicate (16 - copy_len) 0

-- `ticks` is the PIT's counter at the time of the call.
unfoldable pub new : ℕ → Bytes → ℕ → SaveHeader
new ticks rom_name ram_size = record {
  magic = save_magic;
  rom_hash = hash_rom_name rom_name;
  ram_size = u32 ram_size;
  timestamp = ticks;
  rom_name = padded_name rom_name;
}

-- `==` of byte arrays.
unfoldable pub bytes_eq : Bytes → Bytes → Bool
bytes_eq [] [] = true
bytes_eq (x ∷ xs) (y ∷ ys) = x == y && bytes_eq xs ys
bytes_eq _ _ = false

unfoldable pub is_valid : SaveHeader → Bool
unfolding bytes_eq
is_valid h = bytes_eq h.magic save_magic && ltb 0 h.ram_size && leb h.ram_size 0x8000

unfoldable pub matches_rom : SaveHeader → Bytes → Bool
unfolding is_valid
matches_rom h rom_name = is_valid h && h.rom_hash == hash_rom_name rom_name

-- `to_le_bytes` and `from_le_bytes` of a `u32`.
unfoldable pub to_le_bytes : ℕ → Bytes
to_le_bytes x = x % 256 ∷ (x / 256) % 256 ∷ (x / 65536) % 256 ∷ (x / 16777216) % 256 ∷ []

unfoldable pub from_le_bytes : ℕ → ℕ → ℕ → ℕ → ℕ
from_le_bytes x y z w = x + y * 256 + z * 65536 + w * 16777216

unfoldable pub to_bytes : SaveHeader → Bytes
unfolding to_le_bytes
to_bytes h =
    h.magic
    ++ (to_le_bytes h.rom_hash
        ++ (to_le_bytes h.ram_size ++ (to_le_bytes h.timestamp ++ (h.rom_name ++ replicate 480 0))))

-- A sector has 512 bytes, so no index is out of range.
unfoldable pub from_bytes : Bytes → SaveHeader
unfolding from_le_bytes
from_bytes bytes =
    let at = λ (i : ℕ). get_or bytes i 0 in
    record {
      magic = take 4 bytes;
      rom_hash = from_le_bytes (at 4) (at 5) (at 6) (at 7);
      ram_size = from_le_bytes (at 8) (at 9) (at 10) (at 11);
      timestamp = from_le_bytes (at 12) (at 13) (at 14) (at 15);
      rom_name = take 16 (drop 16 bytes);
    }
