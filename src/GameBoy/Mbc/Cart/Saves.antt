-- ===== src/GameBoy/Mbc/Cart/Saves.antt =====
-- Dumping and loading cartridge RAM, and the flag that reports writes to it.
use gb_os.Base.{ℕ, ◌≡◌, ◌≢◌, ◌⊎◌, inl, refl, Bool, true, false, [], ◌∷◌, arith}
use gb_os.Base.{length}
use gb_os.GameBoy.Result.{ok, err}
use gb_os.GameBoy.Mbc.Header.{Bytes}
use gb_os.GameBoy.Mbc.Mbc0
use gb_os.GameBoy.Mbc.Mbc1
use gb_os.GameBoy.Mbc.Mbc2
use gb_os.GameBoy.Mbc.Mbc3
use gb_os.GameBoy.Mbc.Mbc5
use gb_os.GameBoy.Mbc.Cart.{
  Cart, mbc0, mbc1, mbc2, mbc3, mbc5, writerom, writeram, loadram, dumpram,
  check_and_reset_ram_updated,
}

-- The controllers that keep RAM: all but the plain cartridge.
abbrev pub HasRam : Cart → Type 0
HasRam (mbc0 m) = ⊥
HasRam (mbc1 m) = Unit {0}
HasRam (mbc2 m) = Unit {0}
HasRam (mbc3 m) = Unit {0}
HasRam (mbc5 m) = Unit {0}

length-eq-zero : (d : Bytes) → length d ≡ 0 → d ≡ []
length-eq-zero [] h = refl
length-eq-zero (x ∷ d) h = absurd (omega arith)

-- Loading succeeds on bytes of the length of a dump, and a dump then gives those bytes.
pub dumpram-loadram :
    (c : Cart) (d : Bytes)
    → length d ≡ length (dumpram c)
    → (c' : Cart) × (loadram c d ≡ ok c') × (dumpram c' ≡ d)
unfolding loadram dumpram Mbc0.loadram Mbc1.loadram Mbc2.loadram Mbc3.loadram Mbc5.loadram
    Mbc0.dumpram Mbc1.dumpram Mbc2.dumpram Mbc3.dumpram Mbc5.dumpram
dumpram-loadram (mbc0 m) d e = (mbc0 m, refl, ground (arith, length-eq-zero d e))
dumpram-loadram (mbc1 m) d e = (mbc1 (record m { ram = d }), ground arith, refl)
dumpram-loadram (mbc2 m) d e = (mbc2 (record m { ram = d }), ground arith, refl)
dumpram-loadram (mbc3 m) d e = (mbc3 (record m { ram = d }), ground arith, refl)
dumpram-loadram (mbc5 m) d e = (mbc5 (record m { ram = d }), ground arith, refl)

-- Loading its own dump leaves a cartridge as it was.
pub loadram-dumpram : (c : Cart) → loadram c (dumpram c) ≡ ok c
unfolding loadram dumpram Mbc0.loadram Mbc1.loadram Mbc2.loadram Mbc3.loadram Mbc5.loadram
    Mbc0.dumpram Mbc1.dumpram Mbc2.dumpram Mbc3.dumpram Mbc5.dumpram
loadram-dumpram (mbc0 m) = refl
loadram-dumpram (mbc1 m) = ground arith
loadram-dumpram (mbc2 m) = ground arith
loadram-dumpram (mbc3 m) = ground arith
loadram-dumpram (mbc5 m) = ground arith

-- A controller with RAM refuses bytes of any other length.
pub loadram_other_length :
    (c : Cart) (d : Bytes)
    → HasRam c
    → length d ≢ length (dumpram c)
    → loadram c d ≡ err "Loaded RAM has incorrect length"
unfolding loadram dumpram Mbc1.loadram Mbc2.loadram Mbc3.loadram Mbc5.loadram Mbc1.dumpram
    Mbc2.dumpram Mbc3.dumpram Mbc5.dumpram
loadram_other_length (mbc0 m) d h ne = absurd h
loadram_other_length (mbc1 m) d h ne = ground arith
loadram_other_length (mbc2 m) d h ne = ground arith
loadram_other_length (mbc3 m) d h ne = ground arith
loadram_other_length (mbc5 m) d h ne = ground arith

-- What the game does between two checks of the flag.
pub data Play (c : Cart) : Cart → Type 0 where
  start : Play c c
  rom_write : {d : Cart} (addr value : ℕ) → Play c d → Play c (writerom d addr value)
  ram_write : {d : Cart} (addr value : ℕ) → Play c d → Play c (writeram d addr value)

-- The flag as the check reports it.
abbrev reported : Cart → Bool
reported c = (check_and_reset_ram_updated c).0

writerom-dumpram :
    (c : Cart) (a v : ℕ)
    → (dumpram (writerom c a v) ≡ dumpram c) × (reported (writerom c a v) ≡ reported c)
unfolding writerom dumpram check_and_reset_ram_updated Mbc0.writerom Mbc1.writerom Mbc2.writerom
    Mbc3.writerom Mbc5.writerom Mbc0.dumpram Mbc1.dumpram Mbc2.dumpram Mbc3.dumpram Mbc5.dumpram
    Mbc0.check_and_reset_ram_updated Mbc1.check_and_reset_ram_updated
    Mbc2.check_and_reset_ram_updated Mbc3.check_and_reset_ram_updated
    Mbc5.check_and_reset_ram_updated
writerom-dumpram (mbc0 m) a v = (refl, refl)
writerom-dumpram (mbc1 m) a v = ground arith
writerom-dumpram (mbc2 m) a v = ground arith
writerom-dumpram (mbc3 m) a v = ground arith
writerom-dumpram (mbc5 m) a v = ground arith

-- A write to RAM either changes neither the RAM nor the flag, or sets the flag.
writeram-dumpram :
    (c : Cart) (a v : ℕ)
    → (dumpram (writeram c a v) ≡ dumpram c) × (reported (writeram c a v) ≡ reported c)
      ⊎ (reported (writeram c a v) ≡ true)
unfolding writeram dumpram check_and_reset_ram_updated Mbc0.writeram Mbc1.writeram Mbc2.writeram
    Mbc3.writeram Mbc5.writeram Mbc0.dumpram Mbc1.dumpram Mbc2.dumpram Mbc3.dumpram Mbc5.dumpram
    Mbc0.check_and_reset_ram_updated Mbc1.check_and_reset_ram_updated
    Mbc2.check_and_reset_ram_updated Mbc3.check_and_reset_ram_updated
    Mbc5.check_and_reset_ram_updated
writeram-dumpram (mbc0 m) a v = inl (refl, refl)
writeram-dumpram (mbc1 m) a v = ground arith
writeram-dumpram (mbc2 m) a v = ground arith
writeram-dumpram (mbc3 m) a v = ground arith
writeram-dumpram (mbc5 m) a v = ground arith

-- If the cartridge RAM differs after any play from what it was before, the flag is set.
pub ram_change_reported :
    (c d : Cart) → Play c d → (dumpram d ≡ dumpram c) ⊎ ((check_and_reset_ram_updated d).0 ≡ true)
ram_change_reported c d start = inl refl
ram_change_reported c _ (rom_write {d} a v p) =
    ground (arith, ram_change_reported c d p, writerom-dumpram d a v)
ram_change_reported c _ (ram_write {d} a v p) =
    ground (arith, ram_change_reported c d p, writeram-dumpram d a v)

-- A check reports the flag, clears it, and leaves the RAM alone.
pub check_clears :
    (c : Cart)
    → let c' = (check_and_reset_ram_updated c).1 in
      ((check_and_reset_ram_updated c').0 ≡ false) × (dumpram c' ≡ dumpram c)
unfolding dumpram check_and_reset_ram_updated Mbc0.dumpram Mbc1.dumpram Mbc2.dumpram Mbc3.dumpram
    Mbc5.dumpram Mbc0.check_and_reset_ram_updated Mbc1.check_and_reset_ram_updated
    Mbc2.check_and_reset_ram_updated Mbc3.check_and_reset_ram_updated
    Mbc5.check_and_reset_ram_updated
check_clears (mbc0 m) = (refl, refl)
check_clears (mbc1 m) = (refl, refl)
check_clears (mbc2 m) = (refl, refl)
check_clears (mbc3 m) = (refl, refl)
check_clears (mbc5 m) = (refl, refl)
