-- ===== src/Prelude/Bits/Digits.antt =====
-- The binary digits of two numbers: bit_and and bit_or, digit by digit and field by field.
use Prim.Native.Nat.{
  ℕ, zero, suc, ◌+◌, ◌-◌, ◌*◌, ◌/◌, ◌%◌, ◌^◌, ◌<◌, ◌≤◌, min, max, digits, bitwise, bit_and, bit_or,
  bit_and-bitwise, bit_or-bitwise,
}
use mathlib.Core.Path.{◌≡◌, refl, ◌∙◌, ap, sym}
use native.Mathlib.Nat.{mod-add-div', mod-lt}
use native.Mathlib.Omega.{arith}

-- As many rounds as the first number are enough.
digits_more :
    (z : ℕ → ℕ) (f : ℕ → ℕ → ℕ) (n m a b : ℕ) → a ≤ n → a ≤ m → digits z f n a b ≡ digits z f m a b
digits_more z f zero zero a b h k = refl
digits_more z f zero (suc m) zero b h k = refl
digits_more z f zero (suc m) (suc a) b h k = absurd (omega arith)
digits_more z f (suc n) zero zero b h k = refl
digits_more z f (suc n) zero (suc a) b h k = absurd (omega arith)
digits_more z f (suc n) (suc m) zero b h k = refl
digits_more z f (suc n) (suc m) (suc a) b h k =
    ap (λ d. d * 2 + f (suc a % 2) (b % 2))
      (digits_more z f n m (suc a / 2) (b / 2) (omega arith) (omega arith))

-- One round of `bitwise`: the lowest digits, and what is above them.
bitwise_digit :
    (z : ℕ → ℕ) (f : ℕ → ℕ → ℕ)
    → ((b : ℕ) → z b ≡ z (b / 2) * 2 + f 0 (b % 2))
    → (a b : ℕ) → bitwise z f a b ≡ bitwise z f (a / 2) (b / 2) * 2 + f (a % 2) (b % 2)
bitwise_digit z f e zero b = e b
bitwise_digit z f e (suc a) b =
    ap (λ d. d * 2 + f (suc a % 2) (b % 2))
      (digits_more z f a (suc a / 2) (suc a / 2) (b / 2) (omega arith) (omega arith))

bit_and_digit : (a b : ℕ) → bit_and a b ≡ bit_and (a / 2) (b / 2) * 2 + min (a % 2) (b % 2)
bit_and_digit a b =
    bit_and-bitwise a b
    ∙ bitwise_digit (λ b. zero) min (λ b. omega arith) a b
    ∙ ap (λ d. d * 2 + min (a % 2) (b % 2)) (sym (bit_and-bitwise (a / 2) (b / 2)))

pub bit_or_digit : (a b : ℕ) → bit_or a b ≡ bit_or (a / 2) (b / 2) * 2 + max (a % 2) (b % 2)
bit_or_digit a b =
    bit_or-bitwise a b
    ∙ bitwise_digit (λ b. b) max (λ b. omega arith) a b
    ∙ ap (λ d. d * 2 + max (a % 2) (b % 2)) (sym (bit_or-bitwise (a / 2) (b / 2)))

doubled : (a p q : ℕ) → q ≡ p * 2 → a * q ≡ a * p * 2
doubled a p q e = grind arith

-- A field of `k` bits and what is above it are combined on their own.
module _ (op : ℕ → ℕ → ℕ) (f : ℕ → ℕ → ℕ)
    (digit : (a b : ℕ) → op a b ≡ op (a / 2) (b / 2) * 2 + f (a % 2) (b % 2))
    (none_set : op 0 0 ≡ 0) where
  fields :
      (k a r b s : ℕ)
      → r < 2 ^ k
      → s < 2 ^ k
      → op (a * 2 ^ k + r) (b * 2 ^ k + s) ≡ op a b * 2 ^ k + op r s
  fields zero a r b s h g =
      let r0 : r ≡ 0 = omega arith in
      let s0 : s ≡ 0 = omega arith in
      let ea : a * 2 ^ 0 + 0 ≡ a = omega arith in
      let eb : b * 2 ^ 0 + 0 ≡ b = omega arith in rw (r0, s0, none_set, ea, eb) (omega arith)
  fields (suc k) a r b s h g =
      let ih = fields k a (r / 2) b (s / 2) (omega arith) (omega arith) in
      let at_a = doubled a (2 ^ k) (2 ^ suc k) (omega arith) in
      let at_b = doubled b (2 ^ k) (2 ^ suc k) (omega arith) in
      let at_op = doubled (op a b) (2 ^ k) (2 ^ suc k) (omega arith) in
      let ea : (a * 2 ^ suc k + r) / 2 ≡ a * 2 ^ k + r / 2 = omega arith in
      let eb : (b * 2 ^ suc k + s) / 2 ≡ b * 2 ^ k + s / 2 = omega arith in
      let da : (a * 2 ^ suc k + r) % 2 ≡ r % 2 = omega arith in
      let db : (b * 2 ^ suc k + s) % 2 ≡ s % 2 = omega arith in
      digit (a * 2 ^ suc k + r) (b * 2 ^ suc k + s)
      ∙ (rw (ea, eb, da, db, ih, digit r s) (omega (arith, at_op)))

two_pow_pos : (k : ℕ) → 0 < 2 ^ k
two_pow_pos zero = omega arith
two_pow_pos (suc k) = let ih = two_pow_pos k in omega (arith, ih)

bit_and_zero : (n a : ℕ) → a ≤ n → bit_and a 0 ≡ 0
bit_and_zero zero a h = let e : a ≡ 0 = omega arith in rw e (bit_and-bitwise 0 0)
bit_and_zero (suc n) a h =
    bit_and_digit a 0 ∙ let ih = bit_and_zero n (a / 2) (omega arith) in rw ih (omega arith)

bit_or_zero : (n a : ℕ) → a ≤ n → bit_or a 0 ≡ a
bit_or_zero zero a h = let e : a ≡ 0 = omega arith in rw e (bit_or-bitwise 0 0)
bit_or_zero (suc n) a h =
    bit_or_digit a 0 ∙ let ih = bit_or_zero n (a / 2) (omega arith) in rw ih (omega arith)

-- Where the lower number fits below the digits of the other, nothing is carried.
pub bit_or_nothing : (x : ℕ) → bit_or x 0 ≡ x
bit_or_nothing x = bit_or_zero x x (omega arith)

pub bit_or_fields :
    (k a r b s : ℕ)
    → r < 2 ^ k
    → s < 2 ^ k
    → bit_or (a * 2 ^ k + r) (b * 2 ^ k + s) ≡ bit_or a b * 2 ^ k + bit_or r s
bit_or_fields = fields bit_or max bit_or_digit (bit_or-bitwise 0 0)

pub bit_or_low : (k a x r : ℕ) → x ≡ a * 2 ^ k → r < 2 ^ k → bit_or x r ≡ x + r
bit_or_low k a x r e h =
    let joined = fields bit_or max bit_or_digit (bit_or-bitwise 0 0) k a 0 0 r (omega arith) h in
    let left : x ≡ a * 2 ^ k + 0 = omega arith in
    let right : r ≡ 0 * 2 ^ k + r = omega arith in
    let lower : bit_or 0 r ≡ r = bit_or-bitwise 0 r in
    ap (λ t. bit_or t r) left
    ∙ ap (bit_or (a * 2 ^ k + 0)) right
    ∙ joined
    ∙ let above = bit_or_zero a a (omega arith) in rw (above, lower) (omega arith)

pub bit_or_above : (k a x r : ℕ) → x ≡ a * 2 ^ k → r < 2 ^ k → bit_or r x ≡ r + x
bit_or_above k a x r e h =
    let joined = fields bit_or max bit_or_digit (bit_or-bitwise 0 0) k 0 r a 0 h (two_pow_pos k) in
    let left : r ≡ 0 * 2 ^ k + r = omega arith in
    let right : x ≡ a * 2 ^ k + 0 = omega arith in
    let upper : bit_or 0 a ≡ a = bit_or-bitwise 0 a in
    ap (λ t. bit_or t x) left
    ∙ ap (bit_or (0 * 2 ^ k + r)) right
    ∙ joined
    ∙ let below = bit_or_zero r r (omega arith) in rw (upper, below) (omega arith)

bit_and_ones : (k q r : ℕ) → r < 2 ^ k → bit_and (q * 2 ^ k + r) (2 ^ k - 1) ≡ r
bit_and_ones zero q r h = bit_and_zero (q * 1 + r) (q * 1 + r) (omega arith) ∙ omega arith
bit_and_ones (suc k) q r h =
    let at_q = doubled q (2 ^ k) (2 ^ suc k) (omega arith) in
    let ih = bit_and_ones k q (r / 2) (omega arith) in
    let eq : (q * 2 ^ suc k + r) / 2 ≡ q * 2 ^ k + r / 2 = omega arith in
    let em : (2 ^ suc k - 1) / 2 ≡ 2 ^ k - 1 = omega arith in
    let dq : (q * 2 ^ suc k + r) % 2 ≡ r % 2 = omega arith in
    let dm : (2 ^ suc k - 1) % 2 ≡ 1 = omega arith in
    bit_and_digit (q * 2 ^ suc k + r) (2 ^ suc k - 1) ∙ rw (eq, em, dq, dm, ih) (omega arith)

-- `x & mask` where the mask is `k` ones from digit `j` on.
pub bit_and_window : (j k x : ℕ) → bit_and x ((2 ^ k - 1) * 2 ^ j) ≡ x / 2 ^ j % 2 ^ k * 2 ^ j
bit_and_window j k x =
    let y = x / 2 ^ j in
    let split_x : x ≡ y * 2 ^ j + x % 2 ^ j = sym (mod-add-div' x (2 ^ j)) ∙ omega arith in
    let split_y : y ≡ y / 2 ^ k * 2 ^ k + y % 2 ^ k = sym (mod-add-div' y (2 ^ k)) ∙ omega arith in
    let in_x : x % 2 ^ j < 2 ^ j = mod-lt x (two_pow_pos j) in
    let in_y : y % 2 ^ k < 2 ^ k = mod-lt y (two_pow_pos k) in
    let no_low : (2 ^ k - 1) * 2 ^ j ≡ (2 ^ k - 1) * 2 ^ j + 0 = omega arith in
    let low = bit_and_zero (x % 2 ^ j) (x % 2 ^ j) (omega arith) in
    let high : bit_and y (2 ^ k - 1) ≡ y % 2 ^ k =
      ap (λ t. bit_and t (2 ^ k - 1)) split_y ∙ bit_and_ones k (y / 2 ^ k) (y % 2 ^ k) in_y in
    ap (λ t. bit_and t ((2 ^ k - 1) * 2 ^ j)) split_x
    ∙ ap (bit_and (y * 2 ^ j + x % 2 ^ j)) no_low
    ∙ fields bit_and min bit_and_digit (bit_and-bitwise 0 0) j y (x % 2 ^ j) (2 ^ k - 1) 0 in_x
        (two_pow_pos j)
    ∙ rw (low, high) (omega arith)
