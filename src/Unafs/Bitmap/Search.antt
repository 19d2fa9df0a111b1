-- ===== src/Unafs/Bitmap/Search.antt =====
-- The search of `allocate` within one byte: the lowest clear bit.
use una_os.Prelude.{ℕ, zero, suc, ◌+◌, ◌≤◌, ◌<◌, ◌≡◌, arith}
use una_os.Prelude.{true, false, none, some, inl, inr, Bool-cases}
use una_os.Prelude.{◌==◌, ==→eq}
use una_os.Prelude.Bits.{bit}
use una_os.Unafs.Bitmap.{first_clear}

pub first_clear-some :
    (byte k left r : ℕ)
    → first_clear byte k left ≡ some r
    → (k ≤ r)
      × (r < k + left)
      × (bit byte r ≡ false)
      × ((j : ℕ) → k ≤ j → j < r → bit byte j ≡ true)
unfolding first_clear
first_clear-some byte k zero r e = absurd (cc e)
first_clear-some byte k (suc left) r e = elim (Bool-cases (bit byte k)) [
  | inl set ↦
      let ih = first_clear-some byte (k + 1) left r (ground arith) in
      (
        omega (arith, ih.0),
        omega (arith, ih.1),
        ih.2,
        λ j lo hi. elim (Bool-cases (k == j)) [
          | inl here ↦ rw (← ==→eq k j here) set
          | inr away ↦ ih.3 j (ground arith) hi
        ],
      )
  | inr clear ↦
      let here : k ≡ r = ground arith in
      (omega arith, omega arith, rw (← here) clear, λ j lo hi. absurd (omega arith))
]

pub first_clear-none :
    (byte k left : ℕ)
    → first_clear byte k left ≡ none
    → (j : ℕ) → k ≤ j
    → j < k + left
    → bit byte j ≡ true
unfolding first_clear
first_clear-none byte k zero e j lo hi = absurd (omega arith)
first_clear-none byte k (suc left) e j lo hi = elim (Bool-cases (bit byte k)) [
  | inl set ↦ elim (Bool-cases (k == j)) [
    | inl here ↦ rw (← ==→eq k j here) set
    | inr away ↦ first_clear-none byte (k + 1) left (ground arith) j (ground arith) (omega arith)
  ]
  | inr clear ↦ absurd (ground arith)
]
