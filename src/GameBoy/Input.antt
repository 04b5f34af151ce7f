-- ===== src/GameBoy/Input.antt =====
-- From the keyboard to the keypad, kernel/src/gameboy/input.rs; the key codes are those of
-- kernel/src/drivers/keyboard.rs.
pub mod Pressed
use gb_os.Base.{ℕ, bit_and, bit_or, Bool, not, Option, none, some}
use gb_os.Base.{◌==◌, if◌then◌else◌}
use gb_os.Base.Word.{not8}
use gb_os.GameBoy.Keypad.{KeypadKey}

pub data KeyCode : Type 0 where
  escape key1 key2 key3 key4 key5 key6 key7 key8 key9 key0 minus equals backspace tab q w e r t :
      KeyCode
  y u i o p left_bracket right_bracket enter left_ctrl a s d f g h j k l semicolon quote : KeyCode
  backtick left_shift backslash z x c v b n m comma period slash right_shift keypad_asterisk :
      KeyCode
  left_alt space caps_lock f1 f2 f3 f4 f5 f6 f7 f8 f9 f10 num_lock scroll_lock keypad7 keypad8 :
      KeyCode
  keypad9 keypad_minus keypad4 keypad5 keypad6 keypad_plus keypad1 keypad2 keypad3 keypad0 : KeyCode
  keypad_dot f11 f12 up left right down insert delete home end page_up page_down right_ctrl :
      KeyCode
  right_alt fn unknown : KeyCode

pub record InputState : Type 0 where
  pub pressed : ℕ

unfoldable pub new : InputState
new = record { pressed = 0 }

unfoldable pub map_keycode : KeyCode → Option KeypadKey
map_keycode KeyCode.up = some KeypadKey.up
map_keycode KeyCode.down = some KeypadKey.down
map_keycode KeyCode.left = some KeypadKey.left
map_keycode KeyCode.right = some KeypadKey.right
map_keycode KeyCode.a = some KeypadKey.a
map_keycode KeyCode.s = some KeypadKey.b
map_keycode KeyCode.z = some KeypadKey.a
map_keycode KeyCode.x = some KeypadKey.b
map_keycode KeyCode.enter = some KeypadKey.start
map_keycode KeyCode.space = some KeypadKey.select
map_keycode _ = none

unfoldable pub key_to_bit : KeypadKey → ℕ
key_to_bit KeypadKey.right = 0x01
key_to_bit KeypadKey.left = 0x02
key_to_bit KeypadKey.up = 0x04
key_to_bit KeypadKey.down = 0x08
key_to_bit KeypadKey.a = 0x10
key_to_bit KeypadKey.b = 0x20
key_to_bit KeypadKey.select = 0x40
key_to_bit KeypadKey.start = 0x80

-- The body of `update` for a key that has been found.
unfoldable pub track : InputState → KeypadKey → Bool → InputState
track state key pressed = record {
  pressed =
      (if pressed
        then bit_or state.pressed (key_to_bit key)
        else bit_and state.pressed (not8 (key_to_bit key)));
}

unfoldable pub update : InputState → KeyCode → Bool → Option KeypadKey × InputState
unfolding track map_keycode
update state code pressed = elim (map_keycode code) [
  | some key ↦ (some key, track state key pressed)
  | none ↦ (none, state)
]

unfoldable pub is_pressed : InputState → KeypadKey → Bool
is_pressed state key = not (bit_and state.pressed (key_to_bit key) == 0)

-- The other layout, which only maps key codes.
unfoldable pub wasd_map_keycode : KeyCode → Option KeypadKey
wasd_map_keycode KeyCode.w = some KeypadKey.up
wasd_map_keycode KeyCode.s = some KeypadKey.down
wasd_map_keycode KeyCode.a = some KeypadKey.left
wasd_map_keycode KeyCode.d = some KeypadKey.right
wasd_map_keycode KeyCode.up = some KeypadKey.up
wasd_map_keycode KeyCode.down = some KeypadKey.down
wasd_map_keycode KeyCode.left = some KeypadKey.left
wasd_map_keycode KeyCode.right = some KeypadKey.right
wasd_map_keycode KeyCode.j = some KeypadKey.a
wasd_map_keycode KeyCode.k = some KeypadKey.b
wasd_map_keycode KeyCode.enter = some KeypadKey.start
wasd_map_keycode KeyCode.space = some KeypadKey.select
wasd_map_keycode _ = none
