-- ===== src/GameBoy/Serial.antt =====
-- The serial port, kernel/src/gameboy/serial.rs. `SerialCallback` has no user.
mod Transfer
use gb_os.Base.{ℕ, ◌-◌, bit_and, bit_or, Bool, true, false, not, leb, ◌==◌, if◌then◌else◌}
use gb_os.Base.Word.{not8}

-- The field `data` of the source is `transfer_data`.
pub record Serial : Type 0 where
  pub transfer_data : ℕ
  pub control : ℕ
  pub interrupt : ℕ
  pub transferring : Bool
  pub cycles : ℕ

unfoldable pub new : Serial
new = record { transfer_data = 0; control = 0; interrupt = 0; transferring = false; cycles = 0 }

unfoldable pub rb : Serial → ℕ → ℕ
rb s addr =
    if addr == 0xFF01
    then s.transfer_data
    else if addr == 0xFF02
    then bit_or s.control 0x7E
    else 0xFF

unfoldable pub wb : Serial → ℕ → ℕ → Serial
wb s addr value =
    if addr == 0xFF01
    then record s { transfer_data = value }
    else if addr == 0xFF02
    then (if bit_and value 0x81 == 0x81
        then record s { control = value; transferring = true; cycles = 4096 }
        else record s { control = value })
    else s

unfoldable pub do_cycle : Serial → ℕ → Serial
do_cycle s cycles =
    if not s.transferring
    then s
    else if leb s.cycles cycles
    then record s {
      transfer_data = 0xFF;
      control = bit_and s.control (not8 0x80);
      interrupt = bit_or s.interrupt 0x08;
      transferring = false;
    }
    else record s { cycles = s.cycles - cycles }
