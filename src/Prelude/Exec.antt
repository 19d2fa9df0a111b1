-- ===== src/Prelude/Exec.antt =====
-- Fallible operations, and fallible operations that mutate a state. What was written before an
-- error stays written, so the state comes back beside the error too.
use mathlib.Core.Path.{◌≡◌, refl, ap}
use mathlib.Core.Logic.{◌⊎◌, inl, inr}

pub data Result (E A : Type 0) : Type 0 where
  ok : A → Result E A
  err : E → Result E A

abbrev pub Exec : Type 0 → Type 0 → Type 0 → Type 0
Exec E S A = S → Result E A × S

abbrev pub resume : {E S A B : Type 0} → Result E A → (A → Exec E S B) → Exec E S B
resume (ok a) f s = f a s
resume (err e) f s = (err e, s)

infixl 10 ◌>>=◌ ◌>>◌
abbrev pub ◌>>=◌ : {E S A B : Type 0} → Exec E S A → (A → Exec E S B) → Exec E S B
◌>>=◌ m f s = resume (m s).0 f (m s).1

abbrev pub ◌>>◌ : {E S A B : Type 0} → Exec E S A → Exec E S B → Exec E S B
m >> n = m >>= λ _. n

abbrev pub pure : {E S A : Type 0} → A → Exec E S A
pure a s = (ok a, s)

abbrev pub fail : {E S A : Type 0} → E → Exec E S A
fail e s = (err e, s)

abbrev pub gets : {E S A : Type 0} → (S → A) → Exec E S A
gets f s = (ok (f s), s)

abbrev pub modify : {E S : Type 0} → (S → S) → Exec E S (Unit {0})
modify f s = (ok tt, f s)

-- `r.map_err(From::from)`, which `?` applies.
abbrev pub map_err : {E F A : Type 0} → (E → F) → Result E A → Result F A
map_err f (ok a) = ok a
map_err f (err e) = err (f e)

abbrev pub raised : {E F S A : Type 0} → (E → F) → Exec E S A → Exec F S A
raised f m s = (map_err f (m s).0, (m s).1)

-- An operation that yields a value and no effect.
abbrev pub lift : {E S A : Type 0} → Result E A → Exec E S A
lift r s = (r, s)

pub Result-cases :
    {E A : Type 0} (r : Result E A) → ((a : A) × (r ≡ ok a)) ⊎ ((e : E) × (r ≡ err e))
Result-cases (ok a) = inl (a, refl)
Result-cases (err e) = inr (e, refl)

-- A chain that returns has passed through its first step.
pub resume-eq_ok :
    {E S A B : Type 0} (r : Result E A) (f : A → Exec E S B) (s : S) {b : B} {s' : S}
    → resume r f s ≡ (ok b, s')
    → (a : A) × (r ≡ ok a) × (f a s ≡ (ok b, s'))
resume-eq_ok (ok a) f s h = (a, refl, h)
resume-eq_ok (err e) f s h = absurd (cc h)

-- A first step that returns hands its value and its state to the next.
pub bind-ok :
    {E S A B : Type 0} (m : Exec E S A) (f : A → Exec E S B) (s : S) {a : A} {s' : S}
    → m s ≡ (ok a, s')
    → (m >>= f) s ≡ f a s'
bind-ok m f s e = ap (λ t. resume t.0 f t.1) e
