-- ===== src/Base/Bits/Laws.antt =====
-- Masks, disjoint fields and bounds, at every width.
use Prim.Native.Nat.{ℕ, zero, suc, ◌+◌, ◌-◌, ◌*◌, ◌/◌, ◌%◌, ◌^◌, ◌≤◌, ◌<◌, differ}
use Prim.Native.Nat.{bit_and, bit_or, bit_xor, bit_and-bitwise}
use mathlib.Core.Path.{◌≡◌, ap}
use native.Mathlib.Nat.{pow-suc, one-le-pow}
use native.Mathlib.Omega.{arith}
use gb_os.Base.Bits.Digit.{and_digit, or_digit, xor_digit}

-- `x & 0` and `x | 0`, by the number of digits of `x`.
and_nothing : (k a : ℕ) → a ≤ k → bit_and a 0 ≡ 0
and_nothing zero a h = omega (arith, and_digit a 0, bit_and_ended a h)
  where
    bit_and_ended : (a : ℕ) → a ≤ 0 → bit_and (a / 2) 0 ≡ 0
    bit_and_ended a h = let e : a ≡ 0 = omega arith in rw e
and_nothing (suc k) zero h = and_nothing k 0 (omega arith)
and_nothing (suc k) (suc a) h =
    omega (arith, and_digit (suc a) 0, and_nothing k (suc a / 2) (omega arith))

or_nothing : (k a : ℕ) → a ≤ k → bit_or a 0 ≡ a
or_nothing zero a h = let e : a ≡ 0 = omega arith in rw e
or_nothing (suc k) zero h = or_nothing k 0 (omega arith)
or_nothing (suc k) (suc a) h =
    omega (arith, or_digit (suc a) 0, or_nothing k (suc a / 2) (omega arith))

double_shift : (k q : ℕ) → q * 2 ^ suc k ≡ 2 * (q * 2 ^ k)
double_shift k q = omega (arith, ap (λ (t : ℕ). q * t) (pow-suc 2 k))

low_of_fields : (k q r : ℕ) → r < 2 ^ k → bit_and (q * 2 ^ k + r) (2 ^ k - 1) ≡ r
low_of_fields zero q r h = omega (arith, and_nothing (q * 1 + r) (q * 1 + r) (omega arith))
low_of_fields (suc k) q r h =
    let below : bit_and (q * 2 ^ k + r / 2) (2 ^ k - 1) ≡ r / 2 =
      low_of_fields k q (r / 2) (omega (arith, pow-suc 2 k)) in
    let high : (q * 2 ^ suc k + r) / 2 ≡ q * 2 ^ k + r / 2 = omega (arith, double_shift k q) in
    let ones : (2 ^ suc k - 1) / 2 ≡ 2 ^ k - 1 = omega (arith, pow-suc 2 k, one-le-pow k 2) in
    let lower : bit_and ((q * 2 ^ suc k + r) / 2) ((2 ^ suc k - 1) / 2) ≡ r / 2 =
      rw (high, ones) below in
    omega (
      arith,
      and_digit (q * 2 ^ suc k + r) (2 ^ suc k - 1),
      double_shift k q,
      pow-suc 2 k,
      one-le-pow k 2,
    )

-- `x & (2^k - 1)` keeps the low `k` bits.
pub and_mask : (k a : ℕ) → bit_and a (2 ^ k - 1) ≡ a % 2 ^ k
and_mask k a = ground (arith, one-le-pow k 2, low_of_fields k (a / 2 ^ k) (a % 2 ^ k))

-- `(q << k) | r` is a sum where `r` has `k` bits.
pub or_fields : (k q r : ℕ) → r < 2 ^ k → bit_or (q * 2 ^ k) r ≡ q * 2 ^ k + r
or_fields zero q r h =
    let e : r ≡ 0 = omega arith in rw e (omega (arith, or_nothing (q * 1) (q * 1) (omega arith)))
or_fields (suc k) q r h = omega (
  arith,
  double_shift k q,
  or_digit (q * 2 ^ suc k) r,
  ap (λ (t : ℕ). bit_or t (r / 2)) halved,
  or_fields k q (r / 2) (omega (arith, pow-suc 2 k)),
)
  where
    halved : q * 2 ^ suc k / 2 ≡ q * 2 ^ k
    halved = omega (arith, double_shift k q)

pub and-le : (k a b : ℕ) → a ≤ k → bit_and a b ≤ a
and-le zero a b h =
    let e : a ≡ 0 = omega arith in omega (arith, bit_and-bitwise 0 b, ap (λ (t : ℕ). bit_and t b) e)
and-le (suc k) zero b h = and-le k 0 b (omega arith)
and-le (suc k) (suc a) b h =
    omega (arith, and_digit (suc a) b, and-le k (suc a / 2) (b / 2) (omega arith))

-- `|` and `^` of two numbers of `k` bits have `k` bits.
pub or-lt : (k a b : ℕ) → a < 2 ^ k → b < 2 ^ k → bit_or a b < 2 ^ k
or-lt zero a b p q =
    let e : a ≡ 0 = omega arith in let e' : b ≡ 0 = omega arith in rw (e, e') (omega arith)
or-lt (suc k) a b p q = omega (
  arith,
  pow-suc 2 k,
  or_digit a b,
  or-lt k (a / 2) (b / 2) (omega (arith, pow-suc 2 k)) (omega (arith, pow-suc 2 k)),
)

differ-lt : (x y : ℕ) → x < 2 → y < 2 → differ x y < 2
differ-lt zero y p q = q
differ-lt (suc x) zero p q = p
differ-lt (suc x) (suc y) p q = differ-lt x y (omega arith) (omega arith)

pub xor-lt : (k a b : ℕ) → a < 2 ^ k → b < 2 ^ k → bit_xor a b < 2 ^ k
xor-lt zero a b p q =
    let e : a ≡ 0 = omega arith in let e' : b ≡ 0 = omega arith in rw (e, e') (omega arith)
xor-lt (suc k) a b p q = omega (
  arith,
  pow-suc 2 k,
  xor_digit a b,
  differ-lt (a % 2) (b % 2) (omega arith) (omega arith),
  xor-lt k (a / 2) (b / 2) (omega (arith, pow-suc 2 k)) (omega (arith, pow-suc 2 k)),
)

or_comm_upto : (k a b : ℕ) → a ≤ k → b ≤ k → bit_or a b ≡ bit_or b a
or_comm_upto zero a b p q =
    let e : a ≡ 0 = omega arith in let e' : b ≡ 0 = omega arith in rw (e, e')
or_comm_upto (suc k) a b p q =
    omega (
      arith,
      or_digit a b,
      or_digit b a,
      or_comm_upto k (a / 2) (b / 2) (omega arith) (omega arith),
    )

pub or_comm : (a b : ℕ) → bit_or a b ≡ bit_or b a
or_comm a b = or_comm_upto (a + b) a b (omega arith) (omega arith)
