-- ===== src/Base/Bits/Digit.antt =====
-- The lowest binary digit of `&`, `|` and `^`, and what remains above it.
use Prim.Native.Nat.{ℕ, zero, suc, ◌+◌, ◌*◌, ◌/◌, ◌%◌, ◌≤◌, ◌<◌, min, max, differ}
use Prim.Native.Nat.{bit_and, bit_or, bit_xor, digits, bitwise}
use Prim.Native.Nat.{bit_and-bitwise, bit_or-bitwise, bit_xor-bitwise}
use mathlib.Core.Path.{◌≡◌, refl, sym, ap}
use native.Mathlib.Omega.{arith}

module _ (ended : ℕ → ℕ) (digit : ℕ → ℕ → ℕ) where
  digits_ended : (n b : ℕ) → digits ended digit n 0 b ≡ ended b
  digits_ended zero b = refl
  digits_ended (suc n) b = refl

  -- Any two counts of rounds that cover the first number give one result.
  digits_rounds :
      (n m a b : ℕ) → a ≤ n → a ≤ m → digits ended digit n a b ≡ digits ended digit m a b
  digits_rounds zero m a b p q =
      let none_left : a ≡ 0 = omega arith in rw none_left (sym (digits_ended m b))
  digits_rounds (suc n) m zero b p q = sym (digits_ended m b)
  digits_rounds (suc n) zero (suc a) b p q = absurd (omega arith)
  digits_rounds (suc n) (suc m) (suc a) b p q =
      ap (λ high. high * 2 + digit (suc a % 2) (b % 2))
        (digits_rounds n m (suc a / 2) (b / 2) (omega arith) (omega arith))

  bitwise_digit :
      (a b : ℕ)
      → 0 < a
      → bitwise ended digit a b ≡ bitwise ended digit (a / 2) (b / 2) * 2 + digit (a % 2) (b % 2)
  bitwise_digit zero b pos = absurd (omega arith)
  bitwise_digit (suc a) b pos =
      ap (λ high. high * 2 + digit (suc a % 2) (b % 2))
        (digits_rounds a (suc a / 2) (suc a / 2) (b / 2) (omega arith) (omega arith))

pub and_digit : (a b : ℕ) → bit_and a b ≡ bit_and (a / 2) (b / 2) * 2 + min (a % 2) (b % 2)
and_digit zero b = omega (arith, bit_and-bitwise 0 b, bit_and-bitwise 0 (b / 2))
and_digit (suc a) b = omega (
  arith,
  bit_and-bitwise (suc a) b,
  bit_and-bitwise (suc a / 2) (b / 2),
  bitwise_digit (λ _. 0) min (suc a) b,
)

pub or_digit : (a b : ℕ) → bit_or a b ≡ bit_or (a / 2) (b / 2) * 2 + max (a % 2) (b % 2)
or_digit zero b = omega (arith, bit_or-bitwise 0 b, bit_or-bitwise 0 (b / 2))
or_digit (suc a) b = omega (
  arith,
  bit_or-bitwise (suc a) b,
  bit_or-bitwise (suc a / 2) (b / 2),
  bitwise_digit (λ b. b) max (suc a) b,
)

pub xor_digit : (a b : ℕ) → bit_xor a b ≡ bit_xor (a / 2) (b / 2) * 2 + differ (a % 2) (b % 2)
xor_digit zero b = omega (arith, bit_xor-bitwise 0 b, bit_xor-bitwise 0 (b / 2))
xor_digit (suc a) b = omega (
  arith,
  bit_xor-bitwise (suc a) b,
  bit_xor-bitwise (suc a / 2) (b / 2),
  bitwise_digit (λ b. b) differ (suc a) b,
)
