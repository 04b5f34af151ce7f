-- ===== src/GameBoy/Result.antt =====
-- `StrResult` of kernel/src/gameboy/mod.rs: a value, or an error with its message.
use Prim.Native.String.{String}
use mathlib.Core.Path.{◌≡◌, refl, ap}
use mathlib.Core.Bool.{Bool, true, false}
use gb_os.Base.{if◌then◌else◌}

pub data StrResult {ℓ} (A : Type ℓ) : Type ℓ where
  ok : A → StrResult A
  err : String → StrResult A

infixl 5 ◌>>=◌ ◌>>◌
abbrev pub ◌>>=◌ {ℓ κ} : {A : Type ℓ} {B : Type κ} → StrResult A → (A → StrResult B) → StrResult B
ok a >>= f = f a
err e >>= f = err e

abbrev pub ◌>>◌ {ℓ} : {B : Type ℓ} → StrResult (Unit {0}) → StrResult B → StrResult B
m >> k = m >>= λ _. k

abbrev pub map_ok {ℓ κ} : {A : Type ℓ} {B : Type κ} → (A → B) → StrResult A → StrResult B
map_ok f (ok a) = ok (f a)
map_ok f (err e) = err e

-- The value of a success, else the one given.
abbrev value_or {ℓ} : {A : Type ℓ} → A → StrResult A → A
value_or d (ok x) = x
value_or d (err m) = d

pub ok-injective {ℓ} : {A : Type ℓ} {a b : A} → ok a ≡ ok b → a ≡ b
ok-injective {a} e = ap (value_or a) e

-- A mapped result that succeeds comes from a success.
pub map_ok-eq-ok {ℓ κ} :
    {A : Type ℓ} {B : Type κ} (f : A → B) (r : StrResult A) {b : B}
    → map_ok f r ≡ ok b
    → (a : A) × (r ≡ ok a) × (f a ≡ b)
map_ok-eq-ok f (ok a) e = (a, refl, ok-injective e)
map_ok-eq-ok f (err m) e = cc

-- Whatever a success holds has the property.
abbrev pub Ensures {ℓ κ} : {A : Type ℓ} → (A → Type κ) → StrResult A → Type (ℓ ⊔ κ)
Ensures {A} P r = (a : A) → r ≡ ok a → P a

pub Ensures-if {ℓ κ} :
    {A : Type ℓ} (P : A → Type κ) (b : Bool) (r s : StrResult A)
    → Ensures P r
    → Ensures P s
    → Ensures P (if b then r else s)
Ensures-if P true r s p q = p
Ensures-if P false r s p q = q

pub Ensures-err {ℓ κ} : {A : Type ℓ} (P : A → Type κ) (m : String) → Ensures P (err m)
Ensures-err P m a e = cc

pub Ensures->> {ℓ κ} :
    {A : Type ℓ} (P : A → Type κ) (m : StrResult (Unit {0})) (r : StrResult A)
    → Ensures P r
    → Ensures P (m >> r)
Ensures->> P (ok u) r p a e = p a e
Ensures->> P (err m) r p a e = cc
