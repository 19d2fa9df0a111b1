-- ===== src/Prelude/Members.antt =====
-- What stands in a list.
use mathlib.Core.Path.{◌≡◌}
use mathlib.Core.Logic.{◌↔◌, ◌⊎◌, inl, inr}
use mathlib.Core.List.{List, [], ◌∷◌, ◌++◌}

abbrev pub In : {A : Type 0} → A → List A → Type 0
In x [] = ⊥
In x (y ∷ ys) = (x ≡ y) ⊎ In x ys

pub In-append : {A : Type 0} (x : A) (xs ys : List A) → In x (xs ++ ys) ↔ (In x xs ⊎ In x ys)
In-append x [] ys = (inr, λ h. elim h [ inl e ↦ absurd e | inr e ↦ e ])
In-append x (y ∷ xs) ys =
    let rest = In-append x xs ys in
    (
      λ h. elim h [
        | inl e ↦ inl (inl e)
        | inr e ↦ elim (rest.0 e) [ inl f ↦ inl (inr f) | inr f ↦ inr f ]
      ],
      λ h. elim h [
        | inl e ↦ elim e [ inl f ↦ inl f | inr f ↦ inr (rest.1 (inl f)) ]
        | inr e ↦ inr (rest.1 (inr e))
      ],
    )
