-- ===== src/Prelude/Options.antt =====
-- Results that may be missing: a panic of the program is `none`.
use mathlib.Core.Path.{◌≡◌, refl}
use mathlib.Core.Bool.{Bool, true, false}
use mathlib.Core.Option.{Option, none, some}
use native.Mathlib.Omega.{arith}

infixl 5 ◌>>=◌ ◌>>◌
abbrev pub ◌>>=◌ {ℓ κ} : {A : Type ℓ} {B : Type κ} → Option A → (A → Option B) → Option B
none >>= f = none
some a >>= f = f a

abbrev pub ◌>>◌ {ℓ} : {B : Type ℓ} → Option (Unit {0}) → Option B → Option B
m >> k = m >>= λ _. k

-- An assertion, or a bounds check: it panics if its condition fails.
abbrev pub assert : Bool → Option (Unit {0})
assert true = some tt
assert false = none

abbrev pub is_some {ℓ} : {A : Type ℓ} → Option A → Bool
is_some none = false
is_some (some _) = true

-- Inversion of a successful bind, for proofs where the parts stay shut.
pub >>=-eq-some {ℓ κ} :
    {A : Type ℓ} {B : Type κ} (m : Option A) (f : A → Option B) {b : B}
    → (m >>= f) ≡ some b
    → (a : A) × (m ≡ some a) × (f a ≡ some b)
>>=-eq-some none f h = absurd (ground arith)
>>=-eq-some (some a) f h = (a, refl, h)

-- Total correctness: there is no panic, and the result satisfies `P`.
abbrev pub Returns {ℓ} : {A : Type ℓ} → (A → Type 0) → Option A → Type 0
Returns P none = ⊥
Returns P (some a) = P a

module _ {ℓ} {A : Type ℓ} {P : A → Type 0} where
  pub Returns-eq : (m : Option A) → Returns P m → (a : A) × (m ≡ some a) × P a
  Returns-eq none h = absurd h
  Returns-eq (some a) h = (a, refl, h)

  pub Returns-map :
      {Q : A → Type 0} (m : Option A) → ((a : A) → P a → Q a) → Returns P m → Returns Q m
  Returns-map none f h = h
  Returns-map (some a) f h = f a h

  -- The rule of a chain of steps.
  pub Returns-bind {κ} :
      {B : Type κ} (Q : B → Type 0) (m : Option A) (f : A → Option B)
      → Returns P m
      → ((a : A) → P a → Returns Q (f a))
      → Returns Q (m >>= f)
  Returns-bind Q none f h k = absurd h
  Returns-bind Q (some a) f h k = k a h

pub Returns-self :
    {A : Type 0} (P : A → Type 0) (m : Option A) → Returns P m → Returns (λ a. P a × (some a ≡ m)) m
Returns-self P none h = h
Returns-self P (some a) h = (h, refl)

pub >>=_assoc {ℓ κ μ} :
    {A : Type ℓ} {B : Type κ} {C : Type μ} (m : Option A) (f : A → Option B) (g : B → Option C)
    → (m >>= f >>= g) ≡ (m >>= (λ a. f a >>= g))
>>=_assoc none f g = refl
>>=_assoc (some a) f g = refl
