-- ===== src/GameBoy/Device.antt =====
-- The emulator as a whole, kernel/src/gameboy/device.rs, with the constructors of `CPU`,
-- kernel/src/gameboy/cpu.rs: the processor on the memory map.
pub mod Ram
use gb_os.Base.{ℕ, Bool, true, false, List}
use gb_os.GameBoy.Result.{StrResult, map_ok, ◌>>=◌}
use gb_os.GameBoy.Mode.{GbMode}
use gb_os.GameBoy.Register
use gb_os.GameBoy.Keypad
use gb_os.GameBoy.Keypad.{KeypadKey}
use gb_os.GameBoy.Gpu.{PaletteRam}
use gb_os.GameBoy.Mbc.Header.{Bytes}
use gb_os.GameBoy.Mbc.Cart
use gb_os.GameBoy.Mbc.Cart.{Cart, get_mbc}
use gb_os.GameBoy.Mmu.{Mmu, rb}
use gb_os.GameBoy.Mmu.Write as MmuWrite
use gb_os.GameBoy.Mmu.Write.Cycle as MmuCycle
use gb_os.GameBoy.Mmu.New as MmuNew
use gb_os.GameBoy.Mmu.Peek as MmuPeek
use gb_os.GameBoy.Cpu.{Bus, Cpu}
use gb_os.GameBoy.Cpu.Execute as CpuExecute

-- The memory map as the processor's bus.
abbrev pub mmu_bus : Bus
mmu_bus = record {
  State = Mmu;
  rb = λ m a. (rb m a, m);
  wb = MmuWrite.wb;
  inte = λ m. m.inte;
  intf = λ m. m.intf;
  set_intf = λ m v. record m { intf = v };
  switch_speed = MmuCycle.switch_speed;
  do_cycle = MmuCycle.do_cycle;
}

-- A processor at the start of the program, for either constructor.
unfoldable pub started : Mmu → Cpu mmu_bus
started mmu = record {
  reg = Register.new mmu.gbmode;
  halted = false;
  halt_bug = false;
  ime = true;
  setdi = 0;
  setei = 0;
  mmu = mmu;
}

unfoldable pub cpu_new : Cart → StrResult (Cpu mmu_bus)
cpu_new cart = map_ok started (MmuNew.new cart)

unfoldable pub cpu_new_cgb : Cart → StrResult (Cpu mmu_bus)
cpu_new_cgb cart = map_ok started (MmuNew.new_cgb cart)

pub record Device : Type 0 where
  pub cpu : Cpu mmu_bus

abbrev pub device_of : Cpu mmu_bus → Device
device_of cpu = record { cpu = cpu }

unfoldable pub new : Bytes → Bool → StrResult Device
new romdata skip_checksum = do cart ← get_mbc romdata skip_checksum; map_ok device_of (cpu_new cart)

unfoldable pub new_cgb : Bytes → Bool → StrResult Device
new_cgb romdata skip_checksum = do
  cart ← get_mbc romdata skip_checksum
  map_ok device_of (cpu_new_cgb cart)

-- The memory map of a device, and a device with another.
abbrev pub mmu : Device → Mmu
mmu d = d.cpu.mmu

abbrev pub with_mmu : Device → Mmu → Device
with_mmu d m = record { cpu = record (d.cpu) { mmu = m } }

unfoldable pub do_cycle : Device → ℕ × Device
do_cycle d = let (ticks, cpu) = CpuExecute.do_cycle mmu_bus d.cpu in (ticks, device_of cpu)

unfoldable pub check_and_reset_gpu_updated : Device → Bool × Device
check_and_reset_gpu_updated d =
    let m = mmu d in
    (m.gpu.updated, with_mmu d (record m { gpu = record (m.gpu) { updated = false } }))

unfoldable pub get_gpu_data : Device → List ℕ
get_gpu_data d = d.cpu.mmu.gpu.frame.rgb

unfoldable pub get_pal_data : Device → List ℕ
get_pal_data d = d.cpu.mmu.gpu.frame.pal_data

unfoldable pub get_cbgpal : Device → PaletteRam
get_cbgpal d = d.cpu.mmu.gpu.cbgpal

unfoldable pub get_csprit : Device → PaletteRam
get_csprit d = d.cpu.mmu.gpu.csprit

unfoldable pub get_dmg_palettes : Device → List ℕ × List ℕ × List ℕ
get_dmg_palettes d = (d.cpu.mmu.gpu.palb, d.cpu.mmu.gpu.pal0, d.cpu.mmu.gpu.pal1)

unfoldable pub keydown : Device → KeypadKey → Device
keydown d key = let m = mmu d in with_mmu d (record m { keypad = Keypad.keydown m.keypad key })

unfoldable pub keyup : Device → KeypadKey → Device
keyup d key = let m = mmu d in with_mmu d (record m { keypad = Keypad.keyup m.keypad key })

unfoldable pub romname : Device → List ℕ
romname d = Cart.romname d.cpu.mmu.mbc

unfoldable pub loadram : Device → Bytes → StrResult Device
loadram d ramdata =
    let m = mmu d in map_ok (λ c. with_mmu d (record m { mbc = c })) (Cart.loadram m.mbc ramdata)

unfoldable pub dumpram : Device → Bytes
dumpram d = Cart.dumpram d.cpu.mmu.mbc

unfoldable pub ram_is_battery_backed : Device → Bool
ram_is_battery_backed d = Cart.is_battery_backed d.cpu.mmu.mbc

unfoldable pub check_and_reset_ram_updated : Device → Bool × Device
check_and_reset_ram_updated d =
    let m = mmu d in
    let (updated, c) = Cart.check_and_reset_ram_updated m.mbc in
    (updated, with_mmu d (record m { mbc = c }))

unfoldable pub mode : Device → GbMode
mode d = d.cpu.mmu.gbmode

unfoldable pub read_byte : Device → ℕ → ℕ
read_byte d address = rb d.cpu.mmu address

unfoldable pub write_byte : Device → ℕ → ℕ → Device
write_byte d address byte = with_mmu d (MmuWrite.wb d.cpu.mmu address byte)

unfoldable pub peek : Device → ℕ → ℕ
peek d address = MmuPeek.peek d.cpu.mmu address

unfoldable pub peek_word : Device → ℕ → ℕ
peek_word d address = MmuPeek.peek_word d.cpu.mmu address
