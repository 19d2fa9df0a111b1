-- ===== src/Prelude/Splice.antt =====
-- `&xs[start..start + count]` and `xs[at..at + new.len()].copy_from_slice(new)` on vectors.
use una_os.Prelude.Lists.{length, take, drop, replicate, length-append, length-take, length-drop}
use una_os.Prelude.Lists.{take-append_exact, drop-append_exact, drop-replicate}
use Prim.Native.Nat.{ℕ, zero, suc, ◌+◌, ◌-◌, ◌≤◌}
use mathlib.Core.Path.{◌≡◌, refl, ap, ◌∙◌, sym}
use mathlib.Core.List.{List, [], ◌∷◌, ◌++◌, append_assoc}
use native.Mathlib.Omega.{arith}

module _ {ℓ} {A : Type ℓ} where
  unfoldable pub slice : List A → ℕ → ℕ → List A
  slice xs start count = take count (drop start xs)

  -- The range check of the source, `at + length new ≤ length xs`, is the caller's.
  unfoldable pub splice : List A → ℕ → List A → List A
  splice xs at new = take at xs ++ (new ++ drop (at + length new) xs)

  pub length-slice :
      (xs : List A) (start count : ℕ)
      → start + count ≤ length xs
      → length (slice xs start count) ≡ count
  unfolding slice
  length-slice xs start count h =
      omega (arith, length-take count (drop start xs), length-drop start xs)

  pub length-splice :
      (xs : List A) (at : ℕ) (new : List A)
      → at + length new ≤ length xs
      → length (splice xs at new) ≡ length xs
  unfolding splice
  length-splice xs at new h = omega (
    arith,
    length-append (take at xs) (new ++ drop (at + length new) xs),
    length-append new (drop (at + length new) xs),
    length-take at xs,
    length-drop (at + length new) xs,
  )

  splice-cons :
      (x : A) (xs : List A) (at : ℕ) (new : List A)
      → splice (x ∷ xs) (suc at) new ≡ x ∷ splice xs at new
  unfolding splice
  splice-cons x xs at new =
      let e : suc at + length new ≡ suc (at + length new) = omega arith in rw e

  drop_at-splice :
      (xs : List A) (at : ℕ) (new : List A)
      → at + length new ≤ length xs
      → drop at (splice xs at new) ≡ new ++ drop (at + length new) xs
  unfolding splice
  drop_at-splice xs at new h =
      drop-append_exact (take at xs) _ at (omega (arith, length-take at xs))

  -- What was written is read back.
  pub slice-splice_self :
      (xs : List A) (at n : ℕ) (new : List A)
      → at + length new ≤ length xs
      → n ≡ length new
      → slice (splice xs at new) at n ≡ new
  unfolding slice
  slice-splice_self xs at n new h e = rw (drop_at-splice xs at new h) (take-append_exact new _ n e)

  take-splice :
      (xs : List A) (at n : ℕ) (new : List A)
      → n ≤ at
      → at ≤ length xs
      → take n (splice xs at new) ≡ take n xs
  take-splice xs at zero new h k = refl
  take-splice xs zero (suc n) new h k = absurd (omega arith)
  take-splice [] (suc at) (suc n) new h k = absurd (omega arith)
  take-splice (x ∷ xs) (suc at) (suc n) new h k =
      rw (splice-cons x xs at new)
        (ap (λ t. x ∷ t) (take-splice xs at n new (omega arith) (omega arith)))

  -- A read that ends before the write sees the old bytes.
  pub slice-splice_before :
      (xs : List A) (at start n : ℕ) (new : List A)
      → start + n ≤ at
      → at ≤ length xs
      → slice (splice xs at new) start n ≡ slice xs start n
  unfolding slice
  slice-splice_before xs at zero n new h k = take-splice xs at n new (omega arith) k
  slice-splice_before xs zero (suc start) n new h k = absurd (omega arith)
  slice-splice_before [] (suc at) (suc start) n new h k = absurd (omega arith)
  slice-splice_before (x ∷ xs) (suc at) (suc start) n new h k =
      rw (splice-cons x xs at new)
        (slice-splice_before xs at start n new (omega arith) (omega arith))

  drop-append_past :
      (new ys : List A) (i : ℕ) → length new ≤ i → drop i (new ++ ys) ≡ drop (i - length new) ys
  drop-append_past [] ys i h = let e : i - 0 ≡ i = omega arith in rw e
  drop-append_past (x ∷ new) ys zero h = absurd (omega arith)
  drop-append_past (x ∷ new) ys (suc i) h =
      let e : suc i - suc (length new) ≡ i - length new = omega arith in
      rw e (drop-append_past new ys i (omega arith))

  pub drop-drop : (m n : ℕ) (xs : List A) → drop m (drop n xs) ≡ drop (n + m) xs
  drop-drop m zero xs = let e : 0 + m ≡ m = omega arith in rw e
  drop-drop zero (suc n) [] = let e : suc n + 0 ≡ suc n = omega arith in rw e
  drop-drop (suc m) (suc n) [] = let e : suc n + suc m ≡ suc (n + suc m) = omega arith in rw e
  drop-drop m (suc n) (x ∷ xs) =
      let e : suc n + m ≡ suc (n + m) = omega arith in rw e (drop-drop m n xs)

  drop_past-splice :
      (xs : List A) (at i : ℕ) (new : List A)
      → at + length new ≤ i
      → at ≤ length xs
      → drop i (splice xs at new) ≡ drop i xs
  unfolding splice
  drop_past-splice xs at i new h k =
      drop-append_past (take at xs) _ i (omega (arith, length-take at xs))
      ∙ drop-append_past new _ (i - length (take at xs)) (omega (arith, length-take at xs))
      ∙ drop-drop (i - length (take at xs) - length new) (at + length new) xs
      ∙ ap (λ t. drop t xs) (omega (arith, length-take at xs))

  -- A read that begins after the write sees the old bytes.
  pub slice-splice_after :
      (xs : List A) (at start n : ℕ) (new : List A)
      → at + length new ≤ start
      → at ≤ length xs
      → slice (splice xs at new) start n ≡ slice xs start n
  unfolding slice
  slice-splice_after xs at start n new h k = ap (take n) (drop_past-splice xs at start new h k)

  -- A buffer of `n` equal elements with `front` copied to its start.
  pub splice-replicate :
      (n : ℕ) (front : List A) (x : A)
      → splice (replicate n x) 0 front ≡ front ++ replicate (n - length front) x
  unfolding splice
  splice-replicate n front x =
      let e : 0 + length front ≡ length front = omega arith in
      rw e (ap (λ t. front ++ t) (drop-replicate (length front) n x))

  pub slice-append :
      (xs ys zs : List A) (start n : ℕ)
      → start ≡ length xs
      → n ≡ length ys
      → slice (xs ++ (ys ++ zs)) start n ≡ ys
  unfolding slice
  slice-append xs ys zs start n e f =
      rw (drop-append_exact xs (ys ++ zs) start e) (take-append_exact ys zs n f)

  -- A write at the end of what is used takes from the padding.
  pub splice-append :
      (xs : List A) (x : A) (n : ℕ) (new : List A) (at : ℕ)
      → at ≡ length xs
      → splice (xs ++ replicate n x) at new ≡ (xs ++ new) ++ replicate (n - length new) x
  unfolding splice
  splice-append xs x n new at e =
      ap (λ t. t ++ (new ++ drop (at + length new) (xs ++ replicate n x)))
        (take-append_exact xs (replicate n x) at e)
      ∙ ap (λ t. xs ++ (new ++ t)) (past xs (length new) at e)
      ∙ sym (append_assoc xs new (replicate (n - length new) x))
    where
      past :
          (xs : List A) (k at : ℕ)
          → at ≡ length xs
          → drop (at + k) (xs ++ replicate n x) ≡ replicate (n - k) x
      past [] k at e = let f : at + k ≡ k = omega arith in rw f (drop-replicate k n x)
      past (y ∷ xs) k zero e = absurd (omega arith)
      past (y ∷ xs) k (suc at) e =
          let f : suc at + k ≡ suc (at + k) = omega arith in rw f (past xs k at (omega arith))
