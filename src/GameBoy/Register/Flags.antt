-- ===== src/GameBoy/Register/Flags.antt =====
-- Flags and register pairs behave as storage.
use gb_os.Base.{ℕ, ◌<◌, ◌%◌, ◌≡◌, refl, bit_and, bit_or, Bool, true, false, not, ◌==◌}
use gb_os.Base.{if◌then◌else◌, ltb, same, arith, ◌&&◌}
use gb_os.Base.Word.{not8}
use gb_os.Base.Table.{every_below, every_below_sound}
use gb_os.GameBoy.Register.{CpuFlag, mask, Registers, flag, set_flag, IsValid}

abbrev pub same_flag : CpuFlag → CpuFlag → Bool
same_flag CpuFlag.z CpuFlag.z = true
same_flag CpuFlag.n CpuFlag.n = true
same_flag CpuFlag.h CpuFlag.h = true
same_flag CpuFlag.c CpuFlag.c = true
same_flag _ _ = false

-- F after a flag is written.
abbrev written : ℕ → CpuFlag → Bool → ℕ
written f which value = if value then bit_or f (mask which) else bit_and f (not8 (mask which))

-- What one row of the table checks: the range of F, its low half, and each flag.
abbrev row : CpuFlag → CpuFlag → Bool → ℕ → Bool
row p q value f =
    ltb (written f p value) 256
    && (written f p value % 16 == f % 16)
    && same (not (bit_and (written f p value) (mask q) == 0))
        (if same_flag p q then value else not (bit_and f (mask q) == 0))

every_flag : (CpuFlag → Bool) → Bool
every_flag test = test CpuFlag.z && test CpuFlag.n && test CpuFlag.h && test CpuFlag.c

every_flag_sound : (test : CpuFlag → Bool) (q : CpuFlag) → every_flag test ≡ true → test q ≡ true
unfolding every_flag
every_flag_sound test CpuFlag.z all = ground arith
every_flag_sound test CpuFlag.n all = ground arith
every_flag_sound test CpuFlag.h all = ground arith
every_flag_sound test CpuFlag.c all = ground arith

every_value : (Bool → Bool) → Bool
every_value test = test true && test false

every_value_sound : (test : Bool → Bool) (v : Bool) → every_value test ≡ true → test v ≡ true
unfolding every_value
every_value_sound test true all = ground arith
every_value_sound test false all = ground arith

flag_table :
    every_below 256 (λ f. every_flag λ p. every_flag λ q. every_value λ v. row p q v f) ≡ true
unfolding every_below mask every_flag every_value
flag_table = refl

row_holds : (p q : CpuFlag) (v : Bool) (f : ℕ) → f < 256 → row p q v f ≡ true
row_holds p q v f lt =
    every_value_sound (λ v. row p q v f) v
      (every_flag_sound (λ q. every_value λ v. row p q v f) q
        (every_flag_sound (λ p. every_flag λ q. every_value λ v. row p q v f) p
          (every_below_sound 256 _ f flag_table lt)))

-- Writing one flag sets that flag, keeps the others, and keeps the low half of F.
pub flag-set_flag :
    (r : Registers) (p q : CpuFlag) (v : Bool)
    → r.f < 256
    → (flag (set_flag r p v) q ≡ (if same_flag p q then v else flag r q))
      × ((set_flag r p v).f % 16 ≡ r.f % 16)
      × ((set_flag r p v).f < 256)
unfolding flag set_flag
flag-set_flag r p q v lt = ground (arith, row_holds p q v r.f lt)

pub set_flag-IsValid :
    {r : Registers} (p : CpuFlag) (v : Bool) → IsValid r → IsValid (set_flag r p v)
unfolding set_flag
set_flag-IsValid {r} p v h = ground (arith, flag-set_flag r p p v)
