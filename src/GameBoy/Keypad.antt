-- ===== src/GameBoy/Keypad.antt =====
-- The joypad register, kernel/src/gameboy/keypad.rs.
mod Lines
use gb_os.Base.{ℕ, bit_and, bit_or, Bool, not, ◌&&◌, ◌==◌, if◌then◌else◌}
use gb_os.Base.Word.{not8, shl}

pub data KeypadKey : Type 0 where
  right left up down a b select start : KeypadKey

-- The field `data` of the source is `register`.
pub record Keypad : Type 0 where
  pub row0 : ℕ
  pub row1 : ℕ
  pub register : ℕ
  pub interrupt : ℕ

unfoldable pub new : Keypad
new = record { row0 = 0x0F; row1 = 0x0F; register = 0xFF; interrupt = 0 }

unfoldable pub rb : Keypad → ℕ
rb k = k.register

-- The four input lines: each row that bit 4 or 5 of the register selects pulls its lines low.
unfoldable pub lines : ℕ → ℕ → ℕ → ℕ
lines row0 row1 register =
    let first = if bit_and register 0x10 == 0 then bit_and 0xF row0 else 0xF in
    if bit_and register 0x20 == 0 then bit_and first row1 else first

unfoldable pub update : Keypad → Keypad
update k =
    let old_values = bit_and k.register 0xF in
    let new_values = lines k.row0 k.row1 k.register in
    record k {
      interrupt =
          (if old_values == 0xF && not (new_values == 0xF)
            then bit_or k.interrupt 0x10
            else k.interrupt);
      register = bit_or (bit_and k.register 0xF0) new_values;
    }

unfoldable pub wb : Keypad → ℕ → Keypad
unfolding update
wb k value = update (record k { register = bit_or (bit_and k.register 0xCF) (bit_and value 0x30) })

-- `row &= !(1 << bit)`.
abbrev clear_bit : ℕ → ℕ → ℕ
clear_bit row bit = bit_and row (not8 (shl 1 bit))

-- `row |= 1 << bit`.
abbrev raise_bit : ℕ → ℕ → ℕ
raise_bit row bit = bit_or row (shl 1 bit)

-- The rows after a press.
unfoldable pub press : Keypad → KeypadKey → Keypad
press k right = record k { row0 = clear_bit k.row0 0 }
press k left = record k { row0 = clear_bit k.row0 1 }
press k up = record k { row0 = clear_bit k.row0 2 }
press k down = record k { row0 = clear_bit k.row0 3 }
press k a = record k { row1 = clear_bit k.row1 0 }
press k b = record k { row1 = clear_bit k.row1 1 }
press k select = record k { row1 = clear_bit k.row1 2 }
press k start = record k { row1 = clear_bit k.row1 3 }

unfoldable pub keydown : Keypad → KeypadKey → Keypad
unfolding press
keydown k key = update (press k key)

-- The rows after a release.
unfoldable pub release : Keypad → KeypadKey → Keypad
release k right = record k { row0 = raise_bit k.row0 0 }
release k left = record k { row0 = raise_bit k.row0 1 }
release k up = record k { row0 = raise_bit k.row0 2 }
release k down = record k { row0 = raise_bit k.row0 3 }
release k a = record k { row1 = raise_bit k.row1 0 }
release k b = record k { row1 = raise_bit k.row1 1 }
release k select = record k { row1 = raise_bit k.row1 2 }
release k start = record k { row1 = raise_bit k.row1 3 }

unfoldable pub keyup : Keypad → KeypadKey → Keypad
unfolding release
keyup k key = update (release k key)
