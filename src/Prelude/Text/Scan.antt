-- ===== src/Prelude/Text/Scan.antt =====
-- `str::trim`, `find`, `split`, `starts_with` and `ends_with`, on texts whose spaces are ASCII.
use Prim.Native.Nat.{ℕ, zero, suc, ◌+◌}
use mathlib.Core.Path.{◌≡◌, refl, ap, ◌∙◌}
use mathlib.Core.Bool.{Bool, true, false, ◌&&◌, ◌||◌}
use mathlib.Core.Option.{Option, none, some}
use mathlib.Core.List.{List, [], ◌∷◌, ◌++◌}
use native.Mathlib.Omega.{arith}
use mathlib.Core.Logic.{inl, inr}
use una_os.Prelude.Tests.{leb, ◌==◌, if◌then◌else◌, Bool-cases}
use una_os.Prelude.Lists.{length, take, drop}
use una_os.Prelude.Text.{Text}

abbrev pub is_space : ℕ → Bool
is_space b = b == 32 || (leb 9 b && leb b 13)

unfoldable pub trim_start : Text → Text
trim_start [] = []
trim_start (b ∷ bs) = let rest = trim_start bs in if is_space b then rest else b ∷ bs

abbrev pub is_empty : Text → Bool
is_empty [] = true
is_empty (b ∷ bs) = false

unfoldable pub trim_end : Text → Text
trim_end [] = []
trim_end (b ∷ bs) = let rest = trim_end bs in if is_space b && is_empty rest then [] else b ∷ rest

unfoldable pub trim : Text → Text
unfolding trim_start trim_end
trim s = trim_end (trim_start s)

unfoldable pub starts_with : Text → Text → Bool
starts_with [] s = true
starts_with (p ∷ ps) [] = false
starts_with (p ∷ ps) (b ∷ bs) = p == b && starts_with ps bs

unfoldable pub ends_with_byte : ℕ → Text → Bool
ends_with_byte p [] = false
ends_with_byte p (b ∷ []) = b == p
ends_with_byte p (b ∷ c ∷ bs) = ends_with_byte p (c ∷ bs)

abbrev pub next_index : Option ℕ → Option ℕ
next_index none = none
next_index (some i) = some (suc i)

-- The first place where the pattern stands.
unfoldable pub find : Text → Text → Option ℕ
unfolding starts_with
find p [] = if is_empty p then some 0 else none
find p (b ∷ bs) = let rest = find p bs in if starts_with p (b ∷ bs) then some 0 else next_index rest

-- The parts between the places of the pattern; a text of `fuel` bytes has no more places.
unfoldable pub split_from : ℕ → Text → Text → List Text
unfolding find
split_from zero p s = s ∷ []
split_from (suc fuel) p s = elim (find p s) [
  | none ↦ s ∷ []
  | some i ↦ take i s ∷ split_from fuel p (drop (i + length p) s)
]

unfoldable pub split : Text → Text → List Text
unfolding split_from
split p s = split_from (length s) p s

-- A text with no space at its ends.
abbrev pub IsTrimmed : Text → Type 0
IsTrimmed s = trim s ≡ s

module _ (p : ℕ) where
  pub ends_with_byte-append : (s : Text) → ends_with_byte p (s ++ (p ∷ [])) ≡ true
  unfolding ends_with_byte
  ends_with_byte-append [] = ground arith
  ends_with_byte-append (b ∷ []) = ground arith
  ends_with_byte-append (b ∷ c ∷ s) = ends_with_byte-append (c ∷ s)

is_empty-append : (s : Text) (b : ℕ) → is_empty (s ++ (b ∷ [])) ≡ false
is_empty-append [] b = refl
is_empty-append (c ∷ s) b = refl

-- A last byte that is no space keeps the text before it.
pub trim_end-kept :
    (s : Text) (b : ℕ) → is_space b ≡ false → trim_end (s ++ (b ∷ [])) ≡ s ++ (b ∷ [])
unfolding trim_end
trim_end-kept [] b h = rw h
trim_end-kept (c ∷ s) b h = elim (Bool-cases (is_space c)) [
  | inl space ↦ rw (space, trim_end-kept s b h, is_empty-append s b)
  | inr other ↦ rw (other, trim_end-kept s b h)
]

pub trim_end-space : (s : Text) → trim_end (s ++ (32 ∷ [])) ≡ trim_end s
unfolding trim_end
trim_end-space [] = refl
trim_end-space (c ∷ s) = rw (trim_end-space s)

-- A text without the byte `p` before the first place of a pattern that begins with it.
abbrev pub Without : ℕ → Text → Type 0
Without p [] = Unit {0}
Without p (b ∷ bs) = ((p == b) ≡ false) × Without p bs

pub find-append :
    (p : ℕ) (ps before s : Text) (i : ℕ)
    → Without p before
    → find (p ∷ ps) s ≡ some i
    → find (p ∷ ps) (before ++ s) ≡ some (length before + i)
unfolding find starts_with
find-append p ps [] s i w h = h ∙ ap some (omega arith)
find-append p ps (b ∷ before) s i w h =
    rw (w.0, find-append p ps before s i w.1 h) (ap some (omega arith))

pub split-none : (p s : Text) → find p s ≡ none → split p s ≡ s ∷ []
unfolding split
split-none p [] h = refl
split-none p (b ∷ s) h = rw (h, split_from)
