-- ===== src/GameBoy/Mbc/Cart/Invariant.antt =====
-- Every cartridge that `get_mbc` makes stays valid, whatever is written to it.
use gb_os.Base.{ℕ, ◌≡◌, arith}
use gb_os.GameBoy.Result.{ok, ok-injective, map_ok-eq-ok}
use gb_os.GameBoy.Mbc.Header.{Bytes, header_byte, rom_banks}
use gb_os.GameBoy.Mbc.Mbc0
use gb_os.GameBoy.Mbc.Mbc1
use gb_os.GameBoy.Mbc.Mbc2
use gb_os.GameBoy.Mbc.Mbc3
use gb_os.GameBoy.Mbc.Mbc5
use gb_os.GameBoy.Mbc.Mbc1.Banks as Banks1
use gb_os.GameBoy.Mbc.Mbc2.Ram as Ram2
use gb_os.GameBoy.Mbc.Mbc3.Banks as Banks3
use gb_os.GameBoy.Mbc.Mbc5.Banks as Banks5
use gb_os.GameBoy.Mbc.Cart.{
  Cart, mbc0, mbc1, mbc2, mbc3, mbc5, writerom, writeram, loadram, check_and_reset_ram_updated,
}

-- The controller's own invariant.
abbrev pub IsValid : Cart → Type 0
IsValid (mbc0 m) = Unit {0}
IsValid (mbc1 m) = Banks1.IsValid m
IsValid (mbc2 m) = Ram2.IsValid m
IsValid (mbc3 m) = Banks3.IsValid m
IsValid (mbc5 m) = Banks5.IsValid m

-- The ROM and its declared bank count are those of the image.
abbrev pub IsFrom : Bytes → Cart → Type 0
IsFrom bytes (mbc0 m) = m.rom ≡ bytes
IsFrom bytes (mbc1 m) = (m.rom ≡ bytes) × (m.rombanks ≡ rom_banks (header_byte bytes 0x148))
IsFrom bytes (mbc2 m) = (m.rom ≡ bytes) × (m.rombanks ≡ rom_banks (header_byte bytes 0x148))
IsFrom bytes (mbc3 m) = (m.rom ≡ bytes) × (m.rombanks ≡ rom_banks (header_byte bytes 0x148))
IsFrom bytes (mbc5 m) = (m.rom ≡ bytes) × (m.rombanks ≡ rom_banks (header_byte bytes 0x148))

-- One operation of the trait that changes a cartridge.
pub data Step : Cart → Cart → Type 0 where
  write_rom : (c : Cart) (addr value : ℕ) → Step c (writerom c addr value)
  write_ram : (c : Cart) (addr value : ℕ) → Step c (writeram c addr value)
  load : (c c' : Cart) (bytes : Bytes) → loadram c bytes ≡ ok c' → Step c c'
  check : (c : Cart) → Step c (check_and_reset_ram_updated c).1

pub data Reach (c : Cart) : Cart → Type 0 where
  here : Reach c c
  next : {d e : Cart} → Reach c d → Step d e → Reach c e

writerom-keeps :
    (bytes : Bytes) (c : Cart) (a v : ℕ)
    → IsValid c
    → IsFrom bytes c
    → IsValid (writerom c a v) × IsFrom bytes (writerom c a v)
unfolding writerom Mbc0.writerom Mbc1.writerom Mbc2.writerom Mbc3.writerom Mbc5.writerom
writerom-keeps bytes (mbc0 m) a v h f = (tt, f)
writerom-keeps bytes (mbc1 m) a v h f = (Banks1.writerom-IsValid m a v h, ground arith)
writerom-keeps bytes (mbc2 m) a v h f = (Ram2.writerom-IsValid m a v h, ground arith)
writerom-keeps bytes (mbc3 m) a v h f = (Banks3.writerom-IsValid m a v h, ground arith)
writerom-keeps bytes (mbc5 m) a v h f = (Banks5.writerom-IsValid m a v h, ground arith)

writeram-keeps :
    (bytes : Bytes) (c : Cart) (a v : ℕ)
    → IsValid c
    → IsFrom bytes c
    → IsValid (writeram c a v) × IsFrom bytes (writeram c a v)
unfolding writeram Mbc0.writeram Mbc1.writeram Mbc2.writeram Mbc3.writeram Mbc5.writeram
writeram-keeps bytes (mbc0 m) a v h f = (tt, f)
writeram-keeps bytes (mbc1 m) a v h f = (Banks1.writeram-IsValid m a v h, ground arith)
writeram-keeps bytes (mbc2 m) a v h f = (Ram2.writeram-IsValid m a v h, ground arith)
writeram-keeps bytes (mbc3 m) a v h f = (Banks3.writeram-IsValid m a v h, ground arith)
writeram-keeps bytes (mbc5 m) a v h f = (Banks5.writeram-IsValid m a v h, ground arith)

loadram-keeps :
    (bytes : Bytes) (c c' : Cart) (d : Bytes)
    → loadram c d ≡ ok c'
    → IsValid c
    → IsFrom bytes c
    → IsValid c' × IsFrom bytes c'
unfolding loadram Mbc0.loadram Mbc1.loadram Mbc2.loadram Mbc3.loadram Mbc5.loadram
loadram-keeps bytes (mbc0 m) c' d e h f = rw (← ok-injective e) (tt, f)
loadram-keeps bytes (mbc1 m) c' d e h f =
    let (m', loaded, made) = map_ok-eq-ok mbc1 (Mbc1.loadram m d) e in
    rw (← made) (Banks1.loadram-IsValid m d loaded h, ground arith)
loadram-keeps bytes (mbc2 m) c' d e h f =
    let (m', loaded, made) = map_ok-eq-ok mbc2 (Mbc2.loadram m d) e in
    rw (← made) (Ram2.loadram-IsValid m d loaded h, ground arith)
loadram-keeps bytes (mbc3 m) c' d e h f =
    let (m', loaded, made) = map_ok-eq-ok mbc3 (Mbc3.loadram m d) e in
    rw (← made) (Banks3.loadram-IsValid m d loaded h, ground arith)
loadram-keeps bytes (mbc5 m) c' d e h f =
    let (m', loaded, made) = map_ok-eq-ok mbc5 (Mbc5.loadram m d) e in
    rw (← made) (Banks5.loadram-IsValid m d loaded h, ground arith)

check-keeps :
    (bytes : Bytes) (c : Cart)
    → IsValid c
    → IsFrom bytes c
    → IsValid (check_and_reset_ram_updated c).1 × IsFrom bytes (check_and_reset_ram_updated c).1
unfolding check_and_reset_ram_updated Mbc0.check_and_reset_ram_updated
    Mbc1.check_and_reset_ram_updated Mbc2.check_and_reset_ram_updated
    Mbc3.check_and_reset_ram_updated Mbc5.check_and_reset_ram_updated
check-keeps bytes (mbc0 m) h f = (tt, f)
check-keeps bytes (mbc1 m) h f = (ground arith, f)
check-keeps bytes (mbc2 m) h f = (ground arith, f)
check-keeps bytes (mbc3 m) h f = (ground arith, f)
check-keeps bytes (mbc5 m) h f = (ground arith, f)

Step-keeps :
    (bytes : Bytes) {c d : Cart}
    → Step c d
    → IsValid c
    → IsFrom bytes c
    → IsValid d × IsFrom bytes d
Step-keeps bytes (write_rom c a v) h f = writerom-keeps bytes c a v h f
Step-keeps bytes (write_ram c a v) h f = writeram-keeps bytes c a v h f
Step-keeps bytes (load c c' d e) h f = loadram-keeps bytes c c' d e h f
Step-keeps bytes (check c) h f = check-keeps bytes c h f

pub Reach-keeps :
    (bytes : Bytes) {c d : Cart}
    → Reach c d
    → IsValid c
    → IsFrom bytes c
    → IsValid d × IsFrom bytes d
Reach-keeps bytes here h f = (h, f)
Reach-keeps bytes (next r s) h f =
    let (h', f') = Reach-keeps bytes r h f in Step-keeps bytes s h' f'
