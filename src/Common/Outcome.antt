-- ===== src/Common/Outcome.antt =====
-- What a call comes to: a value, a fault (undefined behaviour in C: a null pointer is read, or a
-- write leaves its block), the end of the process with a status, or, for a loop that takes fuel, no
-- result within that fuel.
use Prim.Native.Nat.{ℕ}
use mathlib.Core.Path.{◌≡◌, refl}
use mathlib.Core.Logic.{◌≢◌}
use mathlib.Core.Bool.{Bool, true, false}
use codecrafters_shell_c.Common.Tests.{if◌then◌else◌}

pub data Outcome {ℓ} (A : Type ℓ) : Type ℓ where
  ok : A → Outcome A
  fault out_of_fuel : Outcome A
  exited : ℕ → Outcome A

infixl 5 ◌>>=◌
abbrev pub ◌>>=◌ {ℓ κ} : {A : Type ℓ} {B : Type κ} → Outcome A → (A → Outcome B) → Outcome B
ok a >>= f = f a
fault >>= f = fault
out_of_fuel >>= f = out_of_fuel
exited status >>= f = exited status

-- The call returns, and `P` holds of its value.
abbrev pub Ends {ℓ} : {A : Type ℓ} → (A → Type 0) → Outcome A → Type 0
Ends P (ok a) = P a
Ends P fault = ⊥
Ends P out_of_fuel = ⊥
Ends P (exited status) = ⊥

module _ {ℓ} {A : Type ℓ} where
  pub Ends-mono : {P Q : A → Type 0} (m : Outcome A) → ((a : A) → P a → Q a) → Ends P m → Ends Q m
  Ends-mono (ok a) h p = h a p
  Ends-mono fault h p = p
  Ends-mono out_of_fuel h p = p
  Ends-mono (exited status) h p = p

  pub Ends-bind {κ} :
      {B : Type κ} {P : A → Type 0} (Q : B → Type 0) (m : Outcome A) (f : A → Outcome B)
      → Ends P m
      → ((a : A) → P a → Ends Q (f a))
      → Ends Q (m >>= f)
  Ends-bind Q (ok a) f p k = k a p
  Ends-bind Q fault f p k = p
  Ends-bind Q out_of_fuel f p k = p
  Ends-bind Q (exited status) f p k = p

  -- A call that ends has a value.
  pub Ends-ok : {P : A → Type 0} (m : Outcome A) → Ends P m → (a : A) × (m ≡ ok a) × P a
  Ends-ok (ok a) p = (a, refl, p)
  Ends-ok fault p = absurd p
  Ends-ok out_of_fuel p = absurd p
  Ends-ok (exited status) p = absurd p

  pub Ends-if :
      (P : A → Type 0) (b : Bool) (x y : Outcome A)
      → (b ≡ true → Ends P x)
      → (b ≡ false → Ends P y)
      → Ends P (if b then x else y)
  Ends-if P true x y hx hy = hx refl
  Ends-if P false x y hx hy = hy refl

pub bind_ext {ℓ κ} :
    {A : Type ℓ} {B : Type κ} (m : Outcome A) (f g : A → Outcome B)
    → ((a : A) → f a ≡ g a)
    → (m >>= f) ≡ (m >>= g)
bind_ext (ok a) f g h = h a
bind_ext fault f g h = refl
bind_ext out_of_fuel f g h = refl
bind_ext (exited status) f g h = refl

-- Of the calls of a chain only the ones before one that does not give a value are made.
pub bind_assoc {ℓ κ ι} :
    {A : Type ℓ} {B : Type κ} {C : Type ι} (m : Outcome A) (f : A → Outcome B) (g : B → Outcome C)
    → (m >>= f >>= g) ≡ (m >>= λ a. f a >>= g)
bind_assoc (ok a) f g = refl
bind_assoc fault f g = refl
bind_assoc out_of_fuel f g = refl
bind_assoc (exited status) f g = refl

pub bind-ok {ℓ} : {A : Type ℓ} (m : Outcome A) → (m >>= λ a. ok a) ≡ m
bind-ok (ok a) = refl
bind-ok fault = refl
bind-ok out_of_fuel = refl
bind-ok (exited status) = refl

-- The call comes to an end within its fuel, and `P` holds of its value if it has one.
abbrev pub Stops {ℓ} : {A : Type ℓ} → (A → Type 0) → Outcome A → Type 0
Stops P (ok a) = P a
Stops P fault = Unit {0}
Stops P out_of_fuel = ⊥
Stops P (exited status) = Unit {0}

module _ {ℓ} {A : Type ℓ} where
  pub Stops-bind {κ} :
      {B : Type κ} {P : A → Type 0} (Q : B → Type 0) (m : Outcome A) (f : A → Outcome B)
      → Stops P m
      → ((a : A) → P a → Stops Q (f a))
      → Stops Q (m >>= f)
  Stops-bind Q (ok a) f p k = k a p
  Stops-bind Q fault f p k = tt
  Stops-bind Q out_of_fuel f p k = p
  Stops-bind Q (exited status) f p k = tt

  pub Stops-of_Ends : (P : A → Type 0) (m : Outcome A) → Ends P m → Stops P m
  Stops-of_Ends P (ok a) p = p
  Stops-of_Ends P fault p = tt
  Stops-of_Ends P out_of_fuel p = p
  Stops-of_Ends P (exited status) p = absurd p

  pub Stops-ne : (P : A → Type 0) (m : Outcome A) → Stops P m → m ≢ out_of_fuel
  Stops-ne P (ok a) p = cc
  Stops-ne P fault p = cc
  Stops-ne P out_of_fuel p = absurd p
  Stops-ne P (exited status) p = cc

  pub Stops-mono :
      {P Q : A → Type 0} (m : Outcome A) → ((a : A) → P a → Q a) → Stops P m → Stops Q m
  Stops-mono (ok a) h p = h a p
  Stops-mono fault h p = p
  Stops-mono out_of_fuel h p = p
  Stops-mono (exited status) h p = p
