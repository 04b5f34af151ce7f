-- ===== src/Base/Bits/Clear.antt =====
-- Clearing the low bits of a word.
use Prim.Native.Nat.{ℕ, zero, suc, ◌+◌, ◌-◌, ◌*◌, ◌/◌, ◌%◌, ◌^◌, ◌≤◌, ◌<◌, bit_and}
use mathlib.Core.Path.{◌≡◌, ap}
use native.Mathlib.Nat.{pow-suc, one-le-pow, mod-eq_of_lt}
use native.Mathlib.Omega.{arith}
use gb_os.Base.Bits.Digit.{and_digit}
use gb_os.Base.Bits.Laws.{and_mask}

mod_twice : (k a : ℕ) → a % 2 ^ suc k ≡ a / 2 % 2 ^ k * 2 + a % 2
mod_twice k a =
    let ones : (2 ^ suc k - 1) / 2 ≡ 2 ^ k - 1 = omega (arith, pow-suc 2 k, one-le-pow k 2) in
    omega (
      arith,
      and_mask (suc k) a,
      and_digit a (2 ^ suc k - 1),
      ap (λ (t : ℕ). bit_and (a / 2) t) ones,
      and_mask k (a / 2),
      pow-suc 2 k,
      one-le-pow k 2,
    )

pow_mono : (k w : ℕ) → k ≤ w → 2 ^ k ≤ 2 ^ w
pow_mono zero w h = omega (arith, one-le-pow w 2)
pow_mono (suc k) zero h = absurd (omega arith)
pow_mono (suc k) (suc w) h = omega (arith, pow-suc 2 k, pow-suc 2 w, pow_mono k w (omega arith))

-- `x & !(2^k - 1)` on a word of `w` bits takes the low `k` bits away.
pub clear_low : (k w a : ℕ) → k ≤ w → a < 2 ^ w → bit_and a (2 ^ w - 2 ^ k) ≡ a - a % 2 ^ k
clear_low zero w a h lt = omega (arith, and_mask w a, mod-eq_of_lt lt)
clear_low (suc k) zero a h lt = absurd (omega arith)
clear_low (suc k) (suc w) a h lt =
    let rest = clear_low k w (a / 2) (omega arith) (omega (arith, pow-suc 2 w)) in
    let half : (2 ^ suc w - 2 ^ suc k) / 2 ≡ 2 ^ w - 2 ^ k =
      omega (arith, pow-suc 2 k, pow-suc 2 w) in
    omega (
      arith,
      and_digit a (2 ^ suc w - 2 ^ suc k),
      ap (λ (t : ℕ). bit_and (a / 2) t) half,
      rest,
      mod_twice k a,
      pow-suc 2 k,
      pow-suc 2 w,
      pow_mono k w (omega arith),
    )
