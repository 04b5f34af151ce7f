-- ===== src/GameBoy/Mmu/New.antt =====
-- The start of the memory map, kernel/src/gameboy/mmu.rs.
use gb_os.Base.{ℕ, bit_and, false, List, [], ◌∷◌, ◌==◌, if◌then◌else◌, replicate}
use gb_os.GameBoy.Result.{StrResult, ok, err}
use gb_os.GameBoy.Mode.{GbMode, GbSpeed}
use gb_os.GameBoy.Serial
use gb_os.GameBoy.Timer
use gb_os.GameBoy.Keypad
use gb_os.GameBoy.Gpu
use gb_os.GameBoy.Gpu.{Gpu}
use gb_os.GameBoy.Mbc.Cart.{Cart}
use gb_os.GameBoy.Mmu.{Mmu, DmaType, wram_size, zram_size, fill_random, rb}
use gb_os.GameBoy.Mmu.Write.{wb}

-- The record that both constructors start from.
unfoldable pub initial : Cart → Gpu → GbMode → Mmu
unfolding fill_random
initial cart gpu mode = record {
  wram = fill_random wram_size 42;
  zram = replicate zram_size 0;
  wrambank = 1;
  hdma = replicate 4 0;
  inte = 0;
  intf = 0;
  serial = Serial.new;
  timer = Timer.new;
  keypad = Keypad.new;
  gpu = gpu;
  mbc = cart;
  gbmode = mode;
  gbspeed = GbSpeed.single;
  speed_switch_req = false;
  hdma_src = 0;
  hdma_dst = 0;
  hdma_status = DmaType.no_dma;
  hdma_len = 0xFF;
  undocumented_cgb_regs = replicate 3 0;
}

-- A list of writes, in order.
unfoldable pub write_all : Mmu → List (ℕ × ℕ) → Mmu
write_all m [] = m
write_all m ((a, v) ∷ rest) = write_all (wb m a v) rest

abbrev pub initial_writes : List (ℕ × ℕ)
initial_writes =
    (0xFF05, 0)
    ∷ (0xFF06, 0)
    ∷ (0xFF07, 0)
    ∷ (0xFF10, 0x80)
    ∷ (0xFF11, 0xBF)
    ∷ (0xFF12, 0xF3)
    ∷ (0xFF14, 0xBF)
    ∷ (0xFF16, 0x3F)
    ∷ (0xFF17, 0)
    ∷ (0xFF19, 0xBF)
    ∷ (0xFF1A, 0x7F)
    ∷ (0xFF1B, 0xFF)
    ∷ (0xFF1C, 0x9F)
    ∷ (0xFF1E, 0xFF)
    ∷ (0xFF20, 0xFF)
    ∷ (0xFF21, 0)
    ∷ (0xFF22, 0)
    ∷ (0xFF23, 0xBF)
    ∷ (0xFF24, 0x77)
    ∷ (0xFF25, 0xF3)
    ∷ (0xFF26, 0xF1)
    ∷ (0xFF40, 0x91)
    ∷ (0xFF42, 0)
    ∷ (0xFF43, 0)
    ∷ (0xFF45, 0)
    ∷ (0xFF47, 0xFC)
    ∷ (0xFF48, 0xFF)
    ∷ (0xFF49, 0xFF)
    ∷ (0xFF4A, 0)
    ∷ (0xFF4B, 0)
    ∷ []

unfoldable pub set_initial : Mmu → Mmu
unfolding write_all
set_initial m = write_all m initial_writes

unfoldable pub determine_mode : Mmu → Mmu
determine_mode m =
    let mode =
      if bit_and (rb m 0x0143) 0x80 == 0x80 then GbMode.color else GbMode.color_as_classic in
    record m { gbmode = mode; gpu = record (m.gpu) { gbmode = mode } }

unfoldable pub new : Cart → StrResult Mmu
unfolding initial set_initial
new cart =
    let res = initial cart Gpu.new GbMode.classic in
    if rb res 0x0143 == 0xC0
    then err "This game does not work in Classic mode"
    else ok (set_initial res)

unfoldable pub new_cgb : Cart → StrResult Mmu
unfolding initial set_initial determine_mode
new_cgb cart = ok (set_initial (determine_mode (initial cart Gpu.new_cgb GbMode.color)))
