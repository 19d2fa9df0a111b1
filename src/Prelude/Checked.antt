-- ===== src/Prelude/Checked.antt =====
-- Code that may panic and may fail: an index out of bounds, or an error of the program's own.
use mathlib.Core.Path.{◌≡◌, refl}
use mathlib.Core.Logic.{◌⊎◌, inl, inr}
use mathlib.Core.Bool.{Bool, true, false}
use una_os.Prelude.Tests.{if◌then◌else◌}

pub data Checked (E A : Type 0) : Type 0 where
  panicked : Checked E A
  failed : E → Checked E A
  parsed : A → Checked E A

infixl 10 ◌>>=◌
abbrev pub ◌>>=◌ : {E A B : Type 0} → Checked E A → (A → Checked E B) → Checked E B
panicked >>= f = panicked
failed e >>= f = failed e
parsed a >>= f = f a

-- What holds of the value, if there is one; a panic is excluded.
abbrev pub Ensures : {E A : Type 0} → (A → Type 0) → Checked E A → Type 0
Ensures P panicked = ⊥
Ensures P (failed e) = Unit {0}
Ensures P (parsed a) = P a

pub Ensures-bind :
    {E A B : Type 0} (P : A → Type 0) (Q : B → Type 0) (m : Checked E A) (f : A → Checked E B)
    → Ensures P m
    → ((a : A) → P a → Ensures Q (f a))
    → Ensures Q (m >>= f)
Ensures-bind P Q panicked f h k = h
Ensures-bind P Q (failed e) f h k = tt
Ensures-bind P Q (parsed a) f h k = k a h

-- A branch: what its test says is at hand in each half.
pub Ensures-if :
    {E A : Type 0} (P : A → Type 0) (b : Bool) (x y : Checked E A)
    → (b ≡ true → Ensures P x)
    → (b ≡ false → Ensures P y)
    → Ensures P (if b then x else y)
Ensures-if P true x y h k = h refl
Ensures-if P false x y h k = k refl

-- What holds of the value of code that neither fails nor panics.
abbrev pub Yields : {E A : Type 0} → (A → Type 0) → Checked E A → Type 0
Yields P panicked = ⊥
Yields P (failed e) = ⊥
Yields P (parsed a) = P a

pub Yields-bind :
    {E A B : Type 0} (P : A → Type 0) (Q : B → Type 0) (m : Checked E A) (f : A → Checked E B)
    → Yields P m
    → ((a : A) → P a → Yields Q (f a))
    → Yields Q (m >>= f)
Yields-bind P Q panicked f h k = h
Yields-bind P Q (failed e) f h k = absurd h
Yields-bind P Q (parsed a) f h k = k a h

pub Ensures-of_Yields : {E A : Type 0} (P : A → Type 0) (m : Checked E A) → Yields P m → Ensures P m
Ensures-of_Yields P panicked h = h
Ensures-of_Yields P (failed e) h = tt
Ensures-of_Yields P (parsed a) h = h

-- A chain panics in its first step or in the rest.
pub bind-panicked :
    {E A B : Type 0} (m : Checked E A) (f : A → Checked E B)
    → (m >>= f) ≡ panicked
    → (m ≡ panicked) ⊎ ((a : A) × (m ≡ parsed a) × (f a ≡ panicked))
bind-panicked panicked f h = inl refl
bind-panicked (failed e) f h = absurd (cc h)
bind-panicked (parsed a) f h = inr (a, refl, h)
