-- ===== src/GameBoy/Mbc/Tests.antt =====
-- Tests of the cartridges, and their theorems at concrete cartridges.
use gb_os.Base.{
  ℕ, zero, suc, ◌*◌, ◌<◌, ◌≤◌, ◌≡◌, ◌≢◌, ◌⊎◌, refl, ◌∙◌, true, false, some, [], ◌∷◌, arith,
}
use gb_os.Base.{
  length, get_or, get_elem?, set, replicate, length-set, length-replicate, get_or-set_self,
  get_or-set_ne,
}
use gb_os.GameBoy.Result.{ok}
use gb_os.GameBoy.Mbc.Header.{Bytes, header_byte, rom_banks, ram_banks}
use gb_os.GameBoy.Mbc.Mbc1
use gb_os.GameBoy.Mbc.Mbc1.Banks as Banks1
use gb_os.GameBoy.Mbc.Mbc3.Banks as Banks3
use gb_os.GameBoy.Mbc.Mbc1.{Mbc1}
use gb_os.GameBoy.Mbc.Mbc3.{Mbc3}
use gb_os.GameBoy.Mbc.Cart.{
  mbc1, readrom, writerom, writeram, get_mbc, cart_of_type, dumpram, check_and_reset_ram_updated,
}
use gb_os.GameBoy.Mbc.Cart.Invariant.{IsValid, IsFrom, Reach, here, next, write_rom}
use gb_os.GameBoy.Mbc.Cart.Reachable.{get_mbc-Reach-IsValid, readrom_from_image}
use gb_os.GameBoy.Mbc.Cart.Saves.{Play, start, ram_write, ram_change_reported}

-- An image of two banks for a first controller with a battery and one RAM bank.
abbrev blank_image : Bytes
blank_image = replicate 0x8000 0

abbrev image : Bytes
image = set (set blank_image 0x147 3) 0x149 2

get_or-replicate : (n i : ℕ) → get_or (replicate {A = ℕ} n 0) i 0 ≡ 0
unfolding replicate
get_or-replicate zero i = refl
get_or-replicate (suc n) zero = refl
get_or-replicate (suc n) (suc i) = get_or-replicate n i

length-image : length image ≡ 0x8000
length-image =
    length-set (set blank_image 0x147 3) 0x149 2
    ∙ length-set blank_image 0x147 3
    ∙ length-replicate {A = ℕ} 0x8000 0

image_header :
    (header_byte image 0x147 ≡ 3) × (header_byte image 0x148 ≡ 0) × (header_byte image 0x149 ≡ 2)
image_header = (
  get_or-set_ne (set blank_image 0x147 3) 0x149 0x147 2 0 (λ e. omega arith)
      ∙ get_or-set_self blank_image 0x147 3 0 (omega (arith, length-replicate {A = ℕ} 0x8000 0)),
  get_or-set_ne (set blank_image 0x147 3) 0x149 0x148 2 0 (λ e. omega arith)
      ∙ get_or-set_ne blank_image 0x147 0x148 3 0 (λ e. omega arith)
      ∙ get_or-replicate 0x8000 0x148,
  get_or-set_self (set blank_image 0x147 3) 0x149 2 0
      (omega (arith, length-set blank_image 0x147 3, length-replicate {A = ℕ} 0x8000 0)),
)

abbrev fresh : Mbc1
fresh = record {
  rom = image;
  ram = replicate 0x2000 0;
  ram_on = false;
  ram_updated = false;
  banking_mode = 0;
  rombank = 1;
  rambank = 0;
  has_battery = true;
  rombanks = 2;
  rambanks = 1;
}

get_mbc-image : get_mbc image true ≡ ok (mbc1 fresh)
unfolding get_mbc cart_of_type Mbc1.new Mbc1.features rom_banks ram_banks
get_mbc-image = ground (arith, length-image, image_header)

-- The cartridge after one write to its bank register.
abbrev switched : Reach (mbc1 fresh) (writerom (mbc1 fresh) 0x2000 1)
switched = next here (write_rom (mbc1 fresh) 0x2000 1)

get_mbc-Reach-IsValid_example :
    IsValid (writerom (mbc1 fresh) 0x2000 1) × IsFrom image (writerom (mbc1 fresh) 0x2000 1)
get_mbc-Reach-IsValid_example =
    get_mbc-Reach-IsValid image true (mbc1 fresh) (writerom (mbc1 fresh) 0x2000 1) get_mbc-image
      switched

two_banks_fit : rom_banks (header_byte image 0x148) * 0x4000 ≤ length image
unfolding rom_banks
two_banks_fit = ground (arith, length-image, image_header)

readrom_from_image_example :
    (i : ℕ) × (i < length image)
    × (get_elem? image i ≡ some (readrom (writerom (mbc1 fresh) 0x2000 1) 0x4147))
readrom_from_image_example =
    readrom_from_image image true (mbc1 fresh) (writerom (mbc1 fresh) 0x2000 1) 0x4147 get_mbc-image
      switched (omega (arith, image_header)) two_banks_fit (omega arith)

-- The same cartridge with its RAM on.
abbrev ram_cart : Mbc1
ram_cart = record fresh { ram_on = true }

ram_cart-IsValid : Banks1.IsValid ram_cart
ram_cart-IsValid = omega (arith, length-replicate {A = ℕ} 0x2000 0)

-- A cartridge with a clock: RAM on, bank 1 of 4 selected.
abbrev clock_cart : Mbc3
clock_cart = record {
  rom = image;
  ram = replicate 0x8000 0;
  rombank = 1;
  rambank = 1;
  ram_on = true;
  ram_updated = false;
  has_battery = true;
  rombanks = 2;
  rambanks = 4;
  selectrtc = false;
  rtc_ram = 0 ∷ 0 ∷ 0 ∷ 0 ∷ 0 ∷ [];
  rtc_ram_latch = 0 ∷ 0 ∷ 0 ∷ 0 ∷ 0 ∷ [];
  rtc_latch = 0xFF;
}

clock_cart-IsValid : Banks3.IsValid clock_cart
clock_cart-IsValid = omega (arith, length-replicate {A = ℕ} 0x8000 0)

abbrev clock_selected : Mbc3
clock_selected = record clock_cart { selectrtc = true }

clock_selected-IsValid : Banks3.IsValid clock_selected
clock_selected-IsValid = omega (arith, length-replicate {A = ℕ} 0x8000 0)

-- One write while RAM is on.
abbrev played : Play (mbc1 ram_cart) (writeram (mbc1 ram_cart) 0xA010 7)
played = ram_write 0xA010 7 start

ram_change_reported_example :
    (dumpram (writeram (mbc1 ram_cart) 0xA010 7) ≡ dumpram (mbc1 ram_cart))
    ⊎ ((check_and_reset_ram_updated (writeram (mbc1 ram_cart) 0xA010 7)).0 ≡ true)
ram_change_reported_example =
    ram_change_reported (mbc1 ram_cart) (writeram (mbc1 ram_cart) 0xA010 7) played

abbrev saved_ram : Bytes
saved_ram = replicate 0x2000 5

saved_ram_fits : length saved_ram ≡ length (dumpram (mbc1 fresh))
unfolding dumpram Mbc1.dumpram
saved_ram_fits = omega (arith, length-replicate {A = ℕ} 0x2000 5, length-replicate {A = ℕ} 0x2000 0)

short_ram_differs : length {A = ℕ} (9 ∷ []) ≢ length (dumpram (mbc1 fresh))
unfolding dumpram Mbc1.dumpram
short_ram_differs = λ e. omega (arith, length-replicate {A = ℕ} 0x2000 0)
