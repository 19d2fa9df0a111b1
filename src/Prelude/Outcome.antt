-- ===== src/Prelude/Outcome.antt =====
-- Code that may panic: an index or a slice out of bounds.
use Prim.Native.Nat.{ℕ, ◌-◌, ◌≤◌, ◌<◌}
use mathlib.Core.Path.{◌≡◌}
use mathlib.Core.Bool.{◌&&◌}
use mathlib.Core.List.{List}
use native.Mathlib.Omega.{arith}
use una_os.Prelude.Tests.{leb, ltb, if◌then◌else◌}
use una_os.Prelude.Lists.{length, get_or}
use una_os.Prelude.Splice.{slice}

pub data Outcome (A : Type 0) : Type 0 where
  panicked : Outcome A
  returned : A → Outcome A

infixl 10 ◌>>=◌
abbrev pub ◌>>=◌ : {A B : Type 0} → Outcome A → (A → Outcome B) → Outcome B
panicked >>= f = panicked
returned a >>= f = f a

-- `xs[i]`
unfoldable pub index : List ℕ → ℕ → Outcome ℕ
index xs i = if ltb i (length xs) then returned (get_or xs i 0) else panicked

-- `&xs[start..end]`
unfoldable pub range : List ℕ → ℕ → ℕ → Outcome (List ℕ)
range xs start end =
    if leb start end && leb end (length xs)
    then returned (slice xs start (end - start))
    else panicked

pub index_in : (xs : List ℕ) (i : ℕ) → i < length xs → index xs i ≡ returned (get_or xs i 0)
unfolding index
index_in xs i h = ground arith

pub range_in :
    (xs : List ℕ) (start end : ℕ)
    → start ≤ end
    → end ≤ length xs
    → range xs start end ≡ returned (slice xs start (end - start))
unfolding range
range_in xs start end h k = ground arith
