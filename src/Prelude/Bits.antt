-- ===== src/Prelude/Bits.antt =====
-- One bit of a byte: the source's masks, and their laws from tables over all bytes.
pub mod Digits
pub mod Places
use Prim.Native.Nat.{ℕ, zero, suc, ◌+◌, ◌-◌, ◌*◌, ◌^◌, ◌<◌, bit_and, bit_or}
use mathlib.Core.Path.{◌≡◌, refl}
use mathlib.Core.Bool.{Bool, true, false, not, ◌&&◌}
use native.Mathlib.Omega.{arith}
use una_os.Prelude.Tests.{ltb, ◌==◌, if◌then◌else◌, ==→eq, and_left, and_right}

-- `byte & (1 << k) != 0`
unfoldable pub bit : ℕ → ℕ → Bool
bit b k = not (bit_and b (2 ^ k) == 0)

-- `byte | (1 << k)`
unfoldable pub set_bit : ℕ → ℕ → ℕ
set_bit b k = bit_or b (2 ^ k)

-- `byte & !(1 << k)` on a `u8`
pub clear_bit : ℕ → ℕ → ℕ
clear_bit b k = bit_and b (255 - 2 ^ k)

checked : ℕ → (ℕ → Bool) → Bool
checked zero p = true
checked (suc last) p = if p last then checked last p else false

-- What a table says of each of its entries.
checked_at : (n : ℕ) (p : ℕ → Bool) (i : ℕ) → checked n p ≡ true → i < n → p i ≡ true
unfolding checked
checked_at zero p i table inside = absurd (omega arith)
checked_at (suc last) p i table inside = ground (arith, checked_at last p i)

abbrev same : Bool → Bool → Bool
same true b = b
same false b = not b

same→eq : (a b : Bool) → same a b ≡ true → a ≡ b
same→eq a b h = ground arith

set_row : ℕ → ℕ → ℕ → Bool
set_row b k j = same (bit (set_bit b k) j) (if k == j then true else bit b j)

clear_row : ℕ → ℕ → ℕ → Bool
clear_row b k j = same (bit (clear_bit b k) j) (if k == j then false else bit b j)

byte_row : ℕ → ℕ → Bool
byte_row b k = ltb (set_bit b k) 256 && ltb (clear_bit b k) 256

set_table : checked 256 (λ b. checked 8 (λ k. checked 8 (set_row b k))) ≡ true
unfolding checked set_row bit set_bit
set_table = refl

clear_table : checked 256 (λ b. checked 8 (λ k. checked 8 (clear_row b k))) ≡ true
unfolding checked clear_row bit clear_bit
clear_table = refl

byte_table : checked 256 (λ b. checked 8 (byte_row b)) ≡ true
unfolding checked byte_row set_bit clear_bit
byte_table = refl

module _ (b k : ℕ) (hb : b < 256) (hk : k < 8) where
  pub bit-set_bit : (j : ℕ) → j < 8 → bit (set_bit b k) j ≡ (if k == j then true else bit b j)
  unfolding set_row
  bit-set_bit j hj = same→eq _ _ (
      checked_at 8 (set_row b k) j
        (checked_at 8 (λ k. checked 8 (set_row b k)) k
          (checked_at 256 (λ b. checked 8 (λ k. checked 8 (set_row b k))) b set_table hb) hk)
        hj)

  pub bit-clear_bit : (j : ℕ) → j < 8 → bit (clear_bit b k) j ≡ (if k == j then false else bit b j)
  unfolding clear_row
  bit-clear_bit j hj = same→eq _ _ (
      checked_at 8 (clear_row b k) j
        (checked_at 8 (λ k. checked 8 (clear_row b k)) k
          (checked_at 256 (λ b. checked 8 (λ k. checked 8 (clear_row b k))) b clear_table hb) hk)
        hj)

  byte_row_lem : byte_row b k ≡ true
  byte_row_lem =
      checked_at 8 (byte_row b) k (checked_at 256 (λ b. checked 8 (byte_row b)) b byte_table hb) hk

  pub set_bit-lt : set_bit b k < 256
  unfolding byte_row
  set_bit-lt = ground (arith, byte_row_lem)

  pub clear_bit-lt : clear_bit b k < 256
  unfolding byte_row
  clear_bit-lt = ground (arith, byte_row_lem)

-- No bit is set in 0, and every bit in 255.
pub bit-zero : (k : ℕ) → k < 8 → bit 0 k ≡ false
unfolding checked bit
bit-zero k h = same→eq _ _ (checked_at 8 (λ k. same (bit 0 k) false) k refl h)

full_row : ℕ → Bool
full_row b = same (b == 255) (checked 8 (bit b))

full_table : checked 256 full_row ≡ true
unfolding checked full_row bit
full_table = refl

checked_all : (n : ℕ) (p : ℕ → Bool) → ((x : ℕ) → x < n → p x ≡ true) → checked n p ≡ true
unfolding checked
checked_all zero p h = refl
checked_all (suc n) p h =
    ground (arith, h n (omega arith), checked_all n p (λ x lt. h x (omega arith)))

-- A byte whose bits are all set is 255.
pub full_byte : (b : ℕ) → b < 256 → ((k : ℕ) → k < 8 → bit b k ≡ true) → b ≡ 255
unfolding full_row
full_byte b h all =
    ground (arith, checked_all 8 (bit b) all, checked_at 256 full_row b full_table h)

pub bit_of_full : (k : ℕ) → k < 8 → bit 255 k ≡ true
unfolding checked bit
bit_of_full k h = checked_at 8 (bit 255) k refl h

-- A bit above those of a field of at most eleven bits.
high_row : ℕ → ℕ → Bool
high_row i r = bit_or r (0 * 2 ^ i) == r + 0 * 2 ^ i && bit_or r (1 * 2 ^ i) == r + 1 * 2 ^ i

high_table : checked 11 (λ i. checked (2 ^ i) (high_row i)) ≡ true
unfolding checked high_row
high_table = refl

pub bit_or_high : (i r b : ℕ) → i < 11 → r < 2 ^ i → b < 2 → bit_or r (b * 2 ^ i) ≡ r + b * 2 ^ i
unfolding high_row
bit_or_high i r b hi hr hb =
    let row : high_row i r ≡ true =
      checked_at (2 ^ i) (high_row i) r
        (checked_at 11 (λ i. checked (2 ^ i) (high_row i)) i high_table hi) hr in
    below_two b hb (==→eq _ _ (and_left _ _ row)) (==→eq _ _ (and_right _ _ row))
  where
    below_two :
        (b : ℕ)
        → b < 2
        → bit_or r (0 * 2 ^ i) ≡ r + 0 * 2 ^ i
        → bit_or r (1 * 2 ^ i) ≡ r + 1 * 2 ^ i
        → bit_or r (b * 2 ^ i) ≡ r + b * 2 ^ i
    below_two zero h p q = p
    below_two (suc zero) h p q = q
    below_two (suc (suc b)) h p q = absurd (omega arith)
