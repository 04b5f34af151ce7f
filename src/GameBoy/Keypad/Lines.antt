-- ===== src/GameBoy/Keypad/Lines.antt =====
-- The register always shows the lines of the selected rows.
use gb_os.Base.{ℕ, ◌+◌, ◌*◌, ◌/◌, ◌%◌, ◌<◌, ◌≡◌, bit_and, bit_or, List, [], ◌∷◌, refl, arith}
use gb_os.Base.Bits.{and_digit, and_mask, or_fields, and-le, or-lt}
use gb_os.GameBoy.Register.Pairs.{and_high}
use gb_os.GameBoy.Keypad.{
  KeypadKey, right, left, up, down, a, b, select, start, Keypad, new, lines, update, wb, press,
  keydown, release, keyup,
}

record IsValid (k : Keypad) : Type 0 where
  row0_lines : k.row0 < 16
  row1_lines : k.row1 < 16
  register_byte : k.register < 256

-- A call of one of the three operations that change the keypad.
data Event : Type 0 where
  write : (value : ℕ) → value < 256 → Event
  pressed : KeypadKey → Event
  released : KeypadKey → Event

apply : Keypad → Event → Keypad
apply k (write value byte) = wb k value
apply k (pressed key) = keydown k key
apply k (released key) = keyup k key

run : Keypad → List Event → Keypad
run k [] = k
run k (x ∷ xs) = run (apply k x) xs

bit_4 : (r : ℕ) → bit_and r 0x10 ≡ r / 16 % 2 * 16
bit_4 r = omega (
  arith,
  and_digit r 0x10,
  and_digit (r / 2) 0x08,
  and_digit (r / 2 / 2) 0x04,
  and_digit (r / 2 / 2 / 2) 0x02,
  and_mask 1 (r / 2 / 2 / 2 / 2),
)

bit_5 : (r : ℕ) → bit_and r 0x20 ≡ r / 32 % 2 * 32
bit_5 r = omega (arith, and_digit r 0x20, bit_4 (r / 2))

lines-lt : (row0 row1 r : ℕ) → lines row0 row1 r < 16
unfolding lines
lines-lt row0 row1 r =
    ground (arith, and-le 15 15 row0, and-le 15 15 row1, and-le 15 (bit_and 15 row0) row1)

-- The lines depend on bits 4 and 5 alone.
lines_of_high : (row0 row1 r s : ℕ) → r / 16 ≡ s / 16 → lines row0 row1 r ≡ lines row0 row1 s
unfolding lines
lines_of_high row0 row1 r s e =
    let same4 : bit_and r 0x10 ≡ bit_and s 0x10 = omega (arith, bit_4 r, bit_4 s) in
    let same5 : bit_and r 0x20 ≡ bit_and s 0x20 = omega (arith, bit_5 r, bit_5 s) in
    rw (same4, same5) refl

update-register :
    (k : Keypad)
    → k.register < 256
    → (update k).register ≡ k.register / 16 * 16 + lines k.row0 k.row1 k.register
unfolding update
update-register k byte = ground (
  arith,
  and_high k.register,
  lines-lt k.row0 k.row1 k.register,
  or_fields 4 (k.register / 16) (lines k.row0 k.row1 k.register),
)

-- The low half of the register is the lines of the rows that its bits 4 and 5 select.
abbrev IsCurrent : Keypad → Type 0
IsCurrent k = k.register % 16 ≡ lines k.row0 k.row1 k.register

rows-update : (k : Keypad) → ((update k).row0 ≡ k.row0) × ((update k).row1 ≡ k.row1)
unfolding update
rows-update k = (refl, refl)

update-IsCurrent : (k : Keypad) → IsValid k → IsValid (update k) × IsCurrent (update k)
update-IsCurrent k v =
    let small = lines-lt k.row0 k.row1 k.register in
    let shown = update-register k v.register_byte in
    let rows = rows-update k in
    let high : (update k).register / 16 ≡ k.register / 16 = omega (arith, shown, small) in
    (
      omega (arith, v, rows, shown, small),
      rw (rows.0, rows.1)
          (rw (lines_of_high k.row0 k.row1 (update k).register k.register high)
            (omega (arith, shown, small))),
    )

press-IsValid : (k : Keypad) (key : KeypadKey) → IsValid k → IsValid (press k key)
unfolding press
press-IsValid k right v = ground (arith, and-le k.row0 k.row0 254)
press-IsValid k left v = ground (arith, and-le k.row0 k.row0 253)
press-IsValid k up v = ground (arith, and-le k.row0 k.row0 251)
press-IsValid k down v = ground (arith, and-le k.row0 k.row0 247)
press-IsValid k a v = ground (arith, and-le k.row1 k.row1 254)
press-IsValid k b v = ground (arith, and-le k.row1 k.row1 253)
press-IsValid k select v = ground (arith, and-le k.row1 k.row1 251)
press-IsValid k start v = ground (arith, and-le k.row1 k.row1 247)

release-IsValid : (k : Keypad) (key : KeypadKey) → IsValid k → IsValid (release k key)
unfolding release
release-IsValid k right v = ground (arith, or-lt 4 k.row0 1)
release-IsValid k left v = ground (arith, or-lt 4 k.row0 2)
release-IsValid k up v = ground (arith, or-lt 4 k.row0 4)
release-IsValid k down v = ground (arith, or-lt 4 k.row0 8)
release-IsValid k a v = ground (arith, or-lt 4 k.row1 1)
release-IsValid k b v = ground (arith, or-lt 4 k.row1 2)
release-IsValid k select v = ground (arith, or-lt 4 k.row1 4)
release-IsValid k start v = ground (arith, or-lt 4 k.row1 8)

apply-IsCurrent : (k : Keypad) (x : Event) → IsValid k → IsValid (apply k x) × IsCurrent (apply k x)
unfolding apply wb keydown keyup
apply-IsCurrent k (write value byte) v = update-IsCurrent _ chosen
  where
    chosen : IsValid (record k { register = bit_or (bit_and k.register 0xCF) (bit_and value 0x30) })
    chosen = ground (
      arith,
      and-le k.register k.register 0xCF,
      and-le value value 0x30,
      or-lt 8 (bit_and k.register 0xCF) (bit_and value 0x30),
    )
apply-IsCurrent k (pressed key) v = update-IsCurrent (press k key) (press-IsValid k key v)
apply-IsCurrent k (released key) v = update-IsCurrent (release k key) (release-IsValid k key v)

run-IsCurrent :
    (k : Keypad) (xs : List Event)
    → IsValid k
    → IsCurrent k
    → IsValid (run k xs) × IsCurrent (run k xs)
unfolding run
run-IsCurrent k [] v h = (v, h)
run-IsCurrent k (x ∷ xs) v h =
    let (v', h') = apply-IsCurrent k x v in run-IsCurrent (apply k x) xs v' h'

-- After any sequence of key presses, releases and register writes on a new keypad, the fields
-- are in range and the register shows the lines of the selected rows.
register_shows_lines : (xs : List Event) → IsValid (run new xs) × IsCurrent (run new xs)
unfolding new lines
register_shows_lines xs = run-IsCurrent new xs (omega arith) refl
