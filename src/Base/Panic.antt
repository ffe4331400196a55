-- ===== src/Base/Panic.antt =====
-- The result of kernel code that may stop the system: `assert`, a page fault on a null pointer.
use mathlib.Core.Path.{◌≡◌, refl}
use mathlib.Core.Logic.{◌⊎◌, inl, inr}
use mathlib.Core.Bool.{Bool, true, false}

pub data Outcome {ℓ} (A : Type ℓ) : Type ℓ where
  ok : A → Outcome A
  panic : Outcome A

infixl 5 ◌>>=◌ ◌>>◌
abbrev pub ◌>>=◌ {ℓ κ} : {A : Type ℓ} {B : Type κ} → Outcome A → (A → Outcome B) → Outcome B
ok a >>= f = f a
panic >>= f = panic

abbrev pub ◌>>◌ {ℓ} : {B : Type ℓ} → Outcome (Unit {0}) → Outcome B → Outcome B
ok done >> next = next
panic >> next = panic

abbrev pub assert : Bool → Outcome (Unit {0})
assert true = ok tt
assert false = panic

pub Outcome-cases {ℓ} : {A : Type ℓ} (o : Outcome A) → (o ≡ panic) ⊎ ((a : A) × (o ≡ ok a))
Outcome-cases panic = inl refl
Outcome-cases (ok a) = inr (a, refl)

pub ok_inj {ℓ} : {A : Type ℓ} {a b : A} → ok a ≡ ok b → a ≡ b
ok_inj h = cc

pub panic-ne-ok {ℓ κ} : {A : Type ℓ} {P : Type κ} {a : A} → panic ≡ ok a → P
panic-ne-ok h = cc
