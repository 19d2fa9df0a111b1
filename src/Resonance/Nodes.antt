-- ===== src/Resonance/Nodes.antt =====
-- libs/resonance/src/nodes/mixer.rs and gain.rs: the two nodes that only combine samples. The samples
-- are a parameter; a buffer is a list, BLOCK_SIZE long in the source.
use una_os.Prelude.{
  ℕ, zero, suc, ◌<◌, ◌≡◌, refl, ap, sym, ◌∙◌, arith, List, [], ◌∷◌, length, get_or, All,
}
use mathlib.Core.Path.{subst}

pub record Samples (F : Type 0) : Type 0 where
  pub silent : F
  pub add : F → F → F
  pub mul : F → F → F

-- `for i in 0..BLOCK_SIZE { out[i] = f(a[i], b[i]) }`
pub combine : {F : Type 0} → (F → F → F) → List F → List F → List F
combine f [] ys = []
combine f (x ∷ xs) [] = x ∷ xs
combine f (x ∷ xs) (y ∷ ys) = f x y ∷ combine f xs ys

-- `out.fill(x)`, and `out[i] = f(signal[i])`
pub each : {F : Type 0} → (F → F) → List F → List F
each f [] = []
each f (x ∷ xs) = f x ∷ each f xs

module _ {F : Type 0} (samples : Samples F) where
  open samples use {silent, add, mul}

  -- `for input in inputs.iter().skip(1) { for i in 0..BLOCK_SIZE { out[i] += input[i] } }`
  pub accumulate : List F → List (List F) → List F
  unfolding combine
  accumulate out [] = out
  accumulate out (input ∷ inputs) = accumulate (combine add out input) inputs

  pub mixer_process : List (List F) → List F → List F
  unfolding accumulate each
  mixer_process [] out = each (λ _. silent) out
  mixer_process (input ∷ inputs) out = accumulate input inputs

  pub gain_process : F → List (List F) → List F → List F
  unfolding combine each
  gain_process base_gain [] out = each (λ _. silent) out
  gain_process base_gain (signal ∷ []) out = each (λ x. mul x base_gain) signal
  gain_process base_gain (signal ∷ modulation ∷ inputs) out =
      combine (λ x m. mul x (add base_gain m)) signal modulation

  -- The samples at one place of all inputs.
  abbrev pub total : F → List (List F) → ℕ → F
  total acc [] i = acc
  total acc (input ∷ inputs) i = total (add acc (get_or input i silent)) inputs i

  get_or-combine :
      (xs ys : List F) (i : ℕ)
      → i < length xs
      → i < length ys
      → get_or (combine add xs ys) i silent ≡ add (get_or xs i silent) (get_or ys i silent)
  unfolding combine
  get_or-combine [] ys i h k = absurd (omega arith)
  get_or-combine (x ∷ xs) [] i h k = absurd (omega arith)
  get_or-combine (x ∷ xs) (y ∷ ys) zero h k = refl
  get_or-combine (x ∷ xs) (y ∷ ys) (suc i) h k = get_or-combine xs ys i (omega arith) (omega arith)

  length-combine : (xs ys : List F) → length (combine add xs ys) ≡ length xs
  unfolding combine
  length-combine [] ys = refl
  length-combine (x ∷ xs) [] = refl
  length-combine (x ∷ xs) (y ∷ ys) = ap suc (length-combine xs ys)

  accumulate-total :
      (out : List F) (inputs : List (List F)) (i : ℕ)
      → i < length out
      → All (λ input. length input ≡ length out) inputs
      → get_or (accumulate out inputs) i silent ≡ total (get_or out i silent) inputs i
  unfolding accumulate
  accumulate-total out [] i h k = refl
  accumulate-total out (input ∷ inputs) i h k =
      let size = length-combine out input in
      accumulate-total (combine add out input) inputs i (omega (arith, size))
        (subst (λ n. All (λ input. length input ≡ n) inputs) (sym size) k.1)
      ∙ ap (λ t. total t inputs i) (get_or-combine out input i h (omega (arith, k.0)))

  -- On buffers of one length, every sample that the mixer writes is the sum of the inputs' samples at
  -- that place, in the order of the ports.
  pub mixer_process-total :
      (input : List F) (inputs : List (List F)) (out : List F) (i : ℕ)
      → i < length input
      → All (λ other. length other ≡ length input) inputs
      → get_or (mixer_process (input ∷ inputs) out) i silent
        ≡ total (get_or input i silent) inputs i
  unfolding mixer_process
  mixer_process-total input inputs out i h k = accumulate-total input inputs i h k
