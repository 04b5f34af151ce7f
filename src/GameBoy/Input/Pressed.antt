-- ===== src/GameBoy/Input/Pressed.antt =====
-- What the input state says is pressed.
use gb_os.Base.{
  ℕ, ◌<◌, ◌≡◌, refl, bit_and, bit_or, Bool, true, false, not, ◌&&◌, inl, inr, none, some, arith,
}
use gb_os.Base.{◌==◌, ltb, same, if◌then◌else◌, Option-cases}
use gb_os.Base.Word.{not8}
use gb_os.Base.Table.{every_below, every_below_sound}
use gb_os.GameBoy.Keypad.{KeypadKey, right, left, up, down, a, b, select, start}
use gb_os.GameBoy.Input.{KeyCode, InputState, map_keycode, key_to_bit, track, update, is_pressed}

-- The state's byte after a key is tracked.
abbrev tracked : ℕ → ℕ → Bool → ℕ
tracked byte bit pressed = if pressed then bit_or byte bit else bit_and byte (not8 bit)

-- One row of the table: the bit of the key is as told, every other is as before.
abbrev row : ℕ → ℕ → ℕ → Bool
row p q byte =
    ltb (tracked byte p true) 256
    && ltb (tracked byte p false) 256
    && same (not (bit_and (tracked byte p true) q == 0))
        (if p == q then true else not (bit_and byte q == 0))
    && same (not (bit_and (tracked byte p false) q == 0))
        (if p == q then false else not (bit_and byte q == 0))

every_bit : (ℕ → Bool) → Bool
every_bit test = test 1 && test 2 && test 4 && test 8 && test 16 && test 32 && test 64 && test 128

every_bit_sound :
    (test : ℕ → Bool) (key : KeypadKey) → every_bit test ≡ true → test (key_to_bit key) ≡ true
unfolding every_bit key_to_bit
every_bit_sound test right all = ground arith
every_bit_sound test left all = ground arith
every_bit_sound test up all = ground arith
every_bit_sound test down all = ground arith
every_bit_sound test a all = ground arith
every_bit_sound test b all = ground arith
every_bit_sound test select all = ground arith
every_bit_sound test start all = ground arith

bit_table : every_below 256 (λ byte. every_bit λ p. every_bit λ q. row p q byte) ≡ true
unfolding every_below every_bit
bit_table = refl

row_holds :
    (p q : KeypadKey) (byte : ℕ) → byte < 256 → row (key_to_bit p) (key_to_bit q) byte ≡ true
row_holds p q byte lt =
    every_bit_sound (λ y. row (key_to_bit p) y byte) q
      (every_bit_sound (λ x. every_bit λ y. row x y byte) p
        (every_below_sound 256 _ byte bit_table lt))

-- After an event of a mapped key code its keypad key is pressed or released as the event says and
-- every other key is as before; any other key code changes nothing. The state stays a byte.
is_pressed-update :
    (s : InputState) (code : KeyCode) (pressed : Bool) (key : KeypadKey)
    → s.pressed < 256
    → let (found, after) = update s code pressed in
      (after.pressed < 256)
      × (found ≡ map_keycode code)
      × (is_pressed after key ≡ elim (map_keycode code) [
        | none ↦ is_pressed s key
        | some k ↦ if key_to_bit k == key_to_bit key then pressed else is_pressed s key
      ])
unfolding update is_pressed track
is_pressed-update s code pressed key lt = elim (Option-cases (map_keycode code)) [
  | inl none_found ↦ ground arith
  | inr (k, found) ↦ ground (arith, row_holds k key s.pressed lt)
]
