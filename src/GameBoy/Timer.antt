-- ===== src/GameBoy/Timer.antt =====
-- The timer, kernel/src/gameboy/timer.rs.
pub mod Edges
use gb_os.Base.{ℕ, ◌+◌, ◌*◌, ◌/◌, ◌%◌, ◌^◌, bit_and, bit_or, ◌&&◌, ◌==◌, if◌then◌else◌, suc}
use gb_os.Base.Word.{u8, u16, shr}

-- `cycles` is a field that no operation reads.
pub record Timer : Type 0 where
  pub div : ℕ
  pub tima : ℕ
  pub tma : ℕ
  pub tac : ℕ
  pub cycles : ℕ
  pub interrupt : ℕ

unfoldable pub new : Timer
new = record { div = 0; tima = 0; tma = 0; tac = 0; cycles = 0; interrupt = 0 }

unfoldable pub rb : Timer → ℕ → ℕ
rb t addr =
    if addr == 0xFF04
    then u8 (shr t.div 8)
    else if addr == 0xFF05
    then t.tima
    else if addr == 0xFF06
    then t.tma
    else if addr == 0xFF07
    then bit_or t.tac 0xF8
    else 0xFF

unfoldable pub wb : Timer → ℕ → ℕ → Timer
wb t addr value =
    if addr == 0xFF04
    then record t { div = 0 }
    else if addr == 0xFF05
    then record t { tima = value }
    else if addr == 0xFF06
    then record t { tma = value }
    else if addr == 0xFF07
    then record t { tac = bit_and value 0x07 }
    else t

-- The bit of DIV that TAC selects; `tac & 0x03` has no other value than these four.
unfoldable pub selected_bit : ℕ → ℕ
selected_bit tac =
    let rate = bit_and tac 0x03 in
    if rate == 0 then 9 else if rate == 1 then 3 else if rate == 2 then 5 else 7

-- `tima.overflowing_add(1)`, with its reload and interrupt.
unfoldable pub increment : Timer → Timer
increment t =
    if t.tima == 0xFF
    then record t { tima = t.tma; interrupt = bit_or t.interrupt 0x04 }
    else record t { tima = t.tima + 1 }

unfoldable pub do_cycle : Timer → ℕ → Timer
unfolding increment
do_cycle t cycles =
    let moved : Timer = record t { div = u16 (t.div + u16 cycles) } in
    if bit_and t.tac 0x04 == 0
    then moved
    else (let bit = selected_bit t.tac in
        let old_bit = bit_and (shr t.div bit) 1 in
        let new_bit = bit_and (shr moved.div bit) 1 in
        if old_bit == 1 && new_bit == 0 then increment moved else moved)
