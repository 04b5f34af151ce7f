-- ===== src/GameBoy/Mbc/Cart/Reachable.antt =====
-- What `get_mbc` makes, and what stays true of it whatever is done to it.
use gb_os.Base.{ℕ, ◌*◌, ◌<◌, ◌≤◌, ◌≡◌, refl, Bool, some, arith}
use gb_os.Base.{length, get_elem?, get_elem?-eq-get_or}
use gb_os.GameBoy.Result.{
  ok, ok-injective, map_ok-eq-ok, map_ok, Ensures, Ensures-if, Ensures-err, Ensures->>,
}
use gb_os.GameBoy.Mbc.Header.{Bytes, header_byte, rom_banks}
use gb_os.GameBoy.Mbc.Mbc0
use gb_os.GameBoy.Mbc.Mbc1
use gb_os.GameBoy.Mbc.Mbc2
use gb_os.GameBoy.Mbc.Mbc3
use gb_os.GameBoy.Mbc.Mbc5
use gb_os.GameBoy.Mbc.Mbc1.Banks as Banks1
use gb_os.GameBoy.Mbc.Mbc2.Ram as Ram2
use gb_os.GameBoy.Mbc.Mbc3.Banks as Banks3
use gb_os.GameBoy.Mbc.Mbc5.Banks as Banks5
use gb_os.GameBoy.Mbc.Cart.{Cart, mbc0, mbc1, mbc2, mbc3, mbc5, readrom, get_mbc, cart_of_type}
use native.Mathlib.Nat.{one-le-pow}
use gb_os.GameBoy.Mbc.Cart.Invariant.{IsValid, IsFrom, Reach, Reach-keeps}

-- What a new cartridge has.
abbrev IsMadeFrom : Bytes → Cart → Type 0
IsMadeFrom bytes c = IsValid c × IsFrom bytes c

mbc1_made : (bytes : Bytes) → Ensures (IsMadeFrom bytes) (map_ok mbc1 (Mbc1.new bytes))
unfolding Mbc1.new
mbc1_made bytes c e =
    let (m, built, made) = map_ok-eq-ok mbc1 (Mbc1.new bytes) e in
    rw (← made) (Banks1.new-IsValid bytes built, ground arith)

mbc2_made : (bytes : Bytes) → Ensures (IsMadeFrom bytes) (map_ok mbc2 (Mbc2.new bytes))
unfolding Mbc2.new
mbc2_made bytes c e =
    let (m, built, made) = map_ok-eq-ok mbc2 (Mbc2.new bytes) e in
    rw (← made) (Ram2.new-IsValid bytes built, ground arith)

mbc3_made : (bytes : Bytes) → Ensures (IsMadeFrom bytes) (map_ok mbc3 (Mbc3.new bytes))
unfolding Mbc3.new
mbc3_made bytes c e =
    let (m, built, made) = map_ok-eq-ok mbc3 (Mbc3.new bytes) e in
    rw (← made) (Banks3.new-IsValid bytes built, ground arith)

mbc5_made : (bytes : Bytes) → Ensures (IsMadeFrom bytes) (map_ok mbc5 (Mbc5.new bytes))
unfolding Mbc5.new
mbc5_made bytes c e =
    let (m, built, made) = map_ok-eq-ok mbc5 (Mbc5.new bytes) e in
    rw (← made) (Banks5.new-IsValid bytes built, ground arith)

mbc0_made : (bytes : Bytes) → Ensures (IsMadeFrom bytes) (map_ok mbc0 (Mbc0.new bytes))
unfolding Mbc0.new
mbc0_made bytes c e = rw (← ok-injective e) (tt, refl)

cart_of_type_made : (bytes : Bytes) → Ensures (IsMadeFrom bytes) (cart_of_type bytes)
unfolding cart_of_type
cart_of_type_made bytes = Ensures-if P _ _ _ (mbc0_made bytes) (
    Ensures-if P _ _ _ (mbc1_made bytes) (
      Ensures-if P _ _ _ (mbc2_made bytes) (
        Ensures-if P _ _ _ (mbc3_made bytes)
          (Ensures-if P _ _ _ (mbc5_made bytes) (Ensures-err P _)))))
  where
    P : Cart → Type 0
    P = IsMadeFrom bytes

get_mbc_made : (bytes : Bytes) (skip : Bool) → Ensures (IsMadeFrom bytes) (get_mbc bytes skip)
unfolding get_mbc
get_mbc_made bytes skip =
    Ensures-if P _ _ _ (Ensures-err P _) (Ensures->> P _ _ (cart_of_type_made bytes))
  where
    P : Cart → Type 0
    P = IsMadeFrom bytes

-- A cartridge that `get_mbc` makes, after any sequence of writes, loads and checks, keeps its
-- ROM image and bank count, and the invariant of its controller.
pub get_mbc-Reach-IsValid :
    (bytes : Bytes) (skip : Bool) (c d : Cart)
    → get_mbc bytes skip ≡ ok c
    → Reach c d
    → IsValid d × IsFrom bytes d
get_mbc-Reach-IsValid bytes skip c d made r =
    let (h, f) = get_mbc_made bytes skip c made in Reach-keeps bytes r h f

rom_banks-two : (v : ℕ) → v ≤ 8 → 2 ≤ rom_banks v
unfolding rom_banks
rom_banks-two v h = ground (arith, one-le-pow v 2)

readrom_in_image :
    (bytes : Bytes) (d : Cart) (addr : ℕ)
    → IsValid d
    → IsFrom bytes d
    → 2 ≤ rom_banks (header_byte bytes 0x148)
    → rom_banks (header_byte bytes 0x148) * 0x4000 ≤ length bytes
    → addr < 0x8000
    → (i : ℕ) × (i < length bytes) × (get_elem? bytes i ≡ some (readrom d addr))
unfolding readrom Mbc0.readrom
readrom_in_image bytes (mbc0 m) addr h f two size low =
    let inside : addr < length bytes = omega arith in
    (addr, inside, rw f (get_elem?-eq-get_or bytes addr 0xFF inside))
readrom_in_image bytes (mbc1 m) addr h f two size low =
    rw (← f.0) (Banks1.readrom_in_bounds m addr h (rw f.1 two) (rw (f.0, f.1) size))
readrom_in_image bytes (mbc2 m) addr h f two size low =
    rw (← f.0) (Ram2.readrom_in_bounds m addr h (rw f.1 two) (rw (f.0, f.1) size))
readrom_in_image bytes (mbc3 m) addr h f two size low =
    rw (← f.0) (Banks3.readrom_in_bounds m addr h (rw f.1 two) (rw (f.0, f.1) size))
readrom_in_image bytes (mbc5 m) addr h f two size low =
    rw (← f.0) (Banks5.readrom_in_bounds m addr h (rw f.1 two) (rw (f.0, f.1) size))

-- For an image that holds the banks its header declares, each read of the ROM area of a
-- reachable cartridge takes a byte of that image.
pub readrom_from_image :
    (bytes : Bytes) (skip : Bool) (c d : Cart) (addr : ℕ)
    → get_mbc bytes skip ≡ ok c
    → Reach c d
    → header_byte bytes 0x148 ≤ 8
    → rom_banks (header_byte bytes 0x148) * 0x4000 ≤ length bytes
    → addr < 0x8000
    → (i : ℕ) × (i < length bytes) × (get_elem? bytes i ≡ some (readrom d addr))
readrom_from_image bytes skip c d addr made r declared size low =
    let (h, f) = get_mbc-Reach-IsValid bytes skip c d made r in
    readrom_in_image bytes d addr h f (rom_banks-two (header_byte bytes 0x148) declared) size low
