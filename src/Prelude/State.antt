-- ===== src/Prelude/State.antt =====
-- Code that always returns and changes a state, and its loops that return early.
use Prim.Native.Nat.{ℕ, zero, suc, ◌+◌, ◌<◌, ◌≤◌}
use mathlib.Core.Path.{◌≡◌, refl, sym, subst}
use mathlib.Core.Logic.{◌⊎◌, inl, inr}
use mathlib.Core.Bool.{Bool, true, false}
use mathlib.Core.Option.{Option, none, some}
use native.Mathlib.Omega.{arith}
use una_os.Prelude.Tests.{if◌then◌else◌, ◌==◌, ==→eq, Bool-cases}

abbrev pub State : Type 0 → Type 0 → Type 0
State S A = S → A × S

infixl 10 ◌>>=◌
abbrev pub ◌>>=◌ : {S A B : Type 0} → State S A → (A → State S B) → State S B
(m >>= f) s = f (m s).0 (m s).1

infixl 10 ◌>>◌
abbrev pub ◌>>◌ : {S A B : Type 0} → State S A → State S B → State S B
(m >> n) s = n (m s).1

abbrev pub pure : {S A : Type 0} → A → State S A
pure a s = (a, s)

-- `for i in start..start + count`, where the body goes on to the next number or returns.
pub for_range : {S A : Type 0} → ℕ → ℕ → (ℕ → State S (Option A)) → State S (Option A)
for_range zero start body = pure none
for_range (suc count) start body = do
  r ← body start
  elim r [ none ↦ for_range count (start + 1) body | some a ↦ pure (some a) ]

-- What a loop returns that asks the numbers from `start` on in their order: the first answer, where the
-- numbers before it have none, or nothing, where none has an answer.
pub data First {A : Type 0} (start stop : ℕ) (Answers : ℕ → Option A → Type 0)
    : Option A → Type 0 where
  found :
      {a : A} (i : ℕ)
      → start ≤ i
      → i < stop
      → Answers i (some a)
      → ((j : ℕ) → start ≤ j → j < i → Answers j none)
      → First start stop Answers (some a)
  missed : ((j : ℕ) → start ≤ j → j < stop → Answers j none) → First start stop Answers none

le_cases : (a b : ℕ) → a ≤ b → (a ≡ b) ⊎ (a + 1 ≤ b)
le_cases a b h = elim (Bool-cases (a == b)) [
  | inl e ↦ inl (==→eq a b e)
  | inr e ↦ inr (ground arith)
]

-- Code that leaves a view of the state as it is and whose result meets a condition.
module _ {S V : Type 0} (view : S → V) (v : V) where
  pub record Gives {A : Type 0} (m : State S A) (Q : A → Type 0) : Type 0 where
    pub run : (s : S) → view s ≡ v → Q (m s).0 × (view (m s).1 ≡ v)

  pub Gives-pure : {A : Type 0} (Q : A → Type 0) (a : A) → Q a → Gives (pure a) Q
  Gives-pure Q a q = record { run = λ s e. (q, e) }

  pub Gives-bind :
      {A B : Type 0} {Q : A → Type 0} {R : B → Type 0} (m : State S A) (f : A → State S B)
      → Gives m Q
      → ((a : A) → Q a → Gives (f a) R)
      → Gives (m >>= f) R
  Gives-bind m f g k = record { run = λ s e. let r = g.run s e in (k (m s).0 r.0).run (m s).1 r.1 }

  pub Gives-weaken :
      {A : Type 0} {P : A → Type 0} (Q : A → Type 0) {m : State S A}
      → Gives m P
      → ((a : A) → P a → Q a)
      → Gives m Q
  Gives-weaken Q {m} g k = record { run = λ s e. let r = g.run s e in (k (m s).0 r.0, r.1) }

  pub Gives-if :
      {A : Type 0} (Q : A → Type 0) (b : Bool) (m n : State S A)
      → (b ≡ true → Gives m Q)
      → (b ≡ false → Gives n Q)
      → Gives (if b then m else n) Q
  Gives-if Q true m n f g = f refl
  Gives-if Q false m n f g = g refl

  -- A result that is chosen by a test.
  pub Gives-if_pure :
      {A : Type 0} (b c : Bool) (x y : A)
      → b ≡ c
      → Gives (if b then pure x else pure y) (λ r. r ≡ (if c then x else y))
  Gives-if_pure true c x y e = record { run = λ s h. (rw (sym e) refl, h) }
  Gives-if_pure false c x y e = record { run = λ s h. (rw (sym e) refl, h) }

  pub Gives-for_range :
      {A : Type 0} (Answers : ℕ → Option A → Type 0) (body : ℕ → State S (Option A)) (stop : ℕ)
      → ((i : ℕ) → i < stop → Gives (body i) (Answers i))
      → (count start : ℕ) → start + count ≡ stop
      → Gives (for_range count start body) (First start stop Answers)
  unfolding for_range
  Gives-for_range Answers body stop h zero start e =
      Gives-pure (First start stop Answers) none (missed (λ j a b. absurd (omega arith)))
  Gives-for_range {A} Answers body stop h (suc count) start e =
      Gives-bind {Q = Answers start} {R = First start stop Answers} (body start) _
        (h start (omega arith))
        (continue (Gives-for_range Answers body stop h count (start + 1) (omega arith)))
    where
      earlier :
          Answers start none
          → (j : ℕ) → start ≤ j
          → (start + 1 ≤ j → Answers j none)
          → Answers j none
      earlier silent j c k = elim (le_cases start j c) [
        | inl e ↦ subst (λ (t : ℕ). Answers t none) e silent
        | inr lt ↦ k lt
      ]

      later :
          {r : Option A}
          → Answers start none
          → First (start + 1) stop Answers r
          → First start stop Answers r
      later silent (found i a b answer before) =
          found i (omega arith) b answer (λ j c d. earlier silent j c (λ k. before j k d))
      later silent (missed all) = missed (λ j c d. earlier silent j c (λ k. all j k d))

      continue :
          Gives (for_range count (start + 1) body) (First (start + 1) stop Answers)
          → (r : Option A) → Answers start r
          → Gives
              (elim r [ none ↦ for_range count (start + 1) body | some a ↦ pure (some a) ])
              (First start stop Answers)
      continue rest none silent = record {
        run = λ s e. let r = rest.run s e in (later silent r.0, r.1);
      }
      continue rest (some a) answer =
          Gives-pure (First start stop Answers) (some a)
            (found start (omega arith) (omega arith) answer (λ j c d. absurd (omega arith)))
