-- ===== src/Prelude/Bits/Places.antt =====
-- The bit of a number at a place, `x / 2 ^ k % 2`.
use una_os.Prelude.{ℕ, zero, suc, ◌+◌, ◌*◌, ◌/◌, ◌%◌, ◌^◌, ◌≡◌, refl, arith, ap, sym, ◌∙◌}
use Prim.Native.Nat.{max}
use una_os.Prelude.{bit_or, ◌==◌, if◌then◌else◌, false}
use una_os.Prelude.Bits.Digits.{bit_or_digit}
use native.Mathlib.Nat.{pow-succ', div-div-eq-div-mul, zero-div}

-- One place lower in the half of the number.
place_suc : (x k : ℕ) → x / 2 ^ suc k % 2 ≡ x / 2 / 2 ^ k % 2
place_suc x k =
    ap (λ t. x / t % 2) (pow-succ' 2 k) ∙ ap (λ t. t % 2) (sym (div-div-eq-div-mul x 2 (2 ^ k)))

doubled : (x n : ℕ) → x * 2 ^ suc n ≡ x * 2 ^ n * 2
doubled x n = rw (pow-succ' 2 n) (grind arith)

-- What is added above the place does not change the bit.
pub place_below : (k j x v : ℕ) → (x * 2 ^ (k + suc j) + v) / 2 ^ k % 2 ≡ v / 2 ^ k % 2
place_below zero j x v =
    let at : 0 + suc j ≡ suc j = omega arith in rw at (omega (arith, doubled x j))
place_below (suc k) j x v =
    let half : (x * 2 ^ (suc k + suc j) + v) / 2 ≡ x * 2 ^ (k + suc j) + v / 2 =
      (let at : suc k + suc j ≡ suc (k + suc j) = omega arith in
        rw at (omega (arith, doubled x (k + suc j)))) in
    place_suc (x * 2 ^ (suc k + suc j) + v) k
    ∙ ap (λ t. t / 2 ^ k % 2) half
    ∙ place_below k j x (v / 2)
    ∙ sym (place_suc v k)

pub place_of_or : (k a b : ℕ) → bit_or a b / 2 ^ k % 2 ≡ max (a / 2 ^ k % 2) (b / 2 ^ k % 2)
place_of_or zero a b = omega (arith, bit_or_digit a b)
place_of_or (suc k) a b =
    let half : bit_or a b / 2 ≡ bit_or (a / 2) (b / 2) = omega (arith, bit_or_digit a b) in
    let left = place_suc a k in
    let right = place_suc b k in
    place_suc (bit_or a b) k
    ∙ ap (λ t. t / 2 ^ k % 2) half
    ∙ place_of_or k (a / 2) (b / 2)
    ∙ rw (left, right) refl

pub place_of_power : (n k : ℕ) → 2 ^ n / 2 ^ k % 2 ≡ (if k == n then 1 else 0)
place_of_power zero zero = refl
place_of_power (suc n) zero =
    let high : (0 == suc n) ≡ false = ground arith in rw high (omega (arith, pow-succ' 2 n))
place_of_power zero (suc k) =
    let high : (suc k == 0) ≡ false = ground arith in
    rw high (place_suc 1 k ∙ omega (arith, zero-div (2 ^ k)))
place_of_power (suc n) (suc k) =
    let half : 2 ^ suc n / 2 ≡ 2 ^ n = omega (arith, pow-succ' 2 n) in
    place_suc (2 ^ suc n) k ∙ ap (λ t. t / 2 ^ k % 2) half ∙ place_of_power n k ∙ ground arith
