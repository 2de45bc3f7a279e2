-- ===== src/Prelude/Whenever.antt =====
-- Properties of the results of code that may panic.
use cu_tty.Prelude.{◌≡◌, refl, Bool, true, false, if◌then◌else◌, Option, none, some, ◌>>=◌}

-- What holds if the code does not panic.
abbrev pub Whenever : {A : Type 0} → (A → Type 0) → Option A → Type 0
Whenever P none = Unit
Whenever P (some a) = P a

pub Whenever-bind :
    {A B : Type 0} {P : A → Type 0} (Q : B → Type 0) (m : Option A) (f : A → Option B)
    → Whenever P m
    → ((a : A) → P a → Whenever Q (f a))
    → Whenever Q (m >>= f)
Whenever-bind Q none f h k = tt
Whenever-bind Q (some a) f h k = k a h

pub anything : {A : Type 0} (m : Option A) → Whenever (λ _. Unit) m
anything none = tt
anything (some a) = tt

pub itself : {A : Type 0} (m : Option A) → Whenever (λ a. some a ≡ m) m
itself none = tt
itself (some a) = refl

-- A branch of the code.
pub Whenever-if :
    {A : Type 0} (P : A → Type 0) (b : Bool) (m n : Option A)
    → (b ≡ true → Whenever P m)
    → (b ≡ false → Whenever P n)
    → Whenever P (if b then m else n)
Whenever-if P true m n h k = h refl
Whenever-if P false m n h k = k refl

pub Whenever-elim :
    {A B : Type 0} (P : A → Type 0) (removed : Option B) (m : Option A) (f : B → Option A)
    → Whenever P m
    → ((b : B) → removed ≡ some b → Whenever P (f b))
    → Whenever P (elim removed [ none ↦ m | some b ↦ f b ])
Whenever-elim P none m f h k = h
Whenever-elim P (some b) m f h k = k b refl
