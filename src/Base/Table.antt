-- ===== src/Base/Table.antt =====
-- Facts about every byte, by evaluation.
use Prim.Native.Nat.{ℕ, zero, suc, ◌<◌}
use mathlib.Core.Path.{◌≡◌}
use mathlib.Core.Bool.{Bool, true, ◌&&◌}
use native.Mathlib.Omega.{arith}
use gb_os.Base.Tests.{◌==◌, ==_iff, same, same→eq}

-- The test holds at every number below the bound.
unfoldable pub every_below : ℕ → (ℕ → Bool) → Bool
every_below zero test = true
every_below (suc n) test = every_below n test && test n

pub every_below_sound :
    (n : ℕ) (test : ℕ → Bool) (x : ℕ) → every_below n test ≡ true → x < n → test x ≡ true
unfolding every_below
every_below_sound zero test x all h = absurd (omega arith)
every_below_sound (suc n) test x all h = ground (arith, every_below_sound n test x)

-- An equation between functions of a byte, from its table.
pub byte_equation :
    (f g : ℕ → ℕ) → every_below 256 (λ v. f v == g v) ≡ true → (v : ℕ) → v < 256 → f v ≡ g v
byte_equation f g table v lt =
    (==_iff (f v) (g v)).0 (every_below_sound 256 (λ v. f v == g v) v table lt)

pub byte_test :
    (t : ℕ → Bool) (b : Bool)
    → every_below 256 (λ v. same (t v) b) ≡ true
    → (v : ℕ) → v < 256
    → t v ≡ b
byte_test t b table v lt = same→eq (t v) b (every_below_sound 256 (λ v. same (t v) b) v table lt)
