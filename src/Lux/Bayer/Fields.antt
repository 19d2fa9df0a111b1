-- ===== src/Lux/Bayer/Fields.antt =====
-- libs/lux/src/parser.rs: the loop of read_bits against arithmetic on the number that the bytes write
-- in little-endian order.
use una_os.Prelude.{ℕ, zero, suc, bit_or, ◌+◌, ◌-◌, ◌*◌, ◌/◌, ◌%◌, ◌^◌, ◌≤◌, ◌<◌, ◌≡◌, ap, sym, ◌∙◌}
use una_os.Prelude.{
  inl, inr, List, [], ◌∷◌, none, some, arith, ltb, if◌then◌else◌, Bool-cases, ltb→lt,
}
use una_os.Prelude.{length, get_or, All, IsByte, from_le_bytes, true, lt→ltb, refl}
use una_os.Lux.{parsed}
use una_os.Prelude.Bits.{bit_or_high}
use native.Mathlib.Nat.{pow-suc, div-div-eq-div-mul, mul-add-mod_self_left, mod-eq_of_lt}
use native.Mathlib.Nat.{zero-div, one-le-pow, mod-one, pow-succ'}
use native.Mathlib.Numerals.{towards_suc}
use native.Mathlib.Nat.{mod-lt, div-add-mod}
use una_os.Lux.Bayer.{bit_val, gather, read_bits}

-- A shift by less than a byte stays in the byte, for the lowest bit.
low_bit : (b rest k : ℕ) → k < 8 → ((b + 256 * rest) / 2 ^ k) % 2 ≡ (b / 2 ^ k) % 2
low_bit b rest zero h = omega arith
low_bit b rest (suc zero) h = omega arith
low_bit b rest (suc (suc zero)) h = omega arith
low_bit b rest (suc (suc (suc zero))) h = omega arith
low_bit b rest (suc (suc (suc (suc zero)))) h = omega arith
low_bit b rest (suc (suc (suc (suc (suc zero))))) h = omega arith
low_bit b rest (suc (suc (suc (suc (suc (suc zero)))))) h = omega arith
low_bit b rest (suc (suc (suc (suc (suc (suc (suc zero))))))) h = omega arith
low_bit b rest (suc (suc (suc (suc (suc (suc (suc (suc k)))))))) h = absurd (omega arith)

pow_eight : (k : ℕ) → 2 ^ (k + 8) ≡ 256 * 2 ^ k
pow_eight k = simp towards_suc (omega arith)

-- The bit of a byte is the bit of the number.
byte_bit_field :
    (bytes : List ℕ) (k : ℕ)
    → All IsByte bytes
    → (get_or bytes (k / 8) 0 / 2 ^ (k % 8)) % 2 ≡ (from_le_bytes bytes / 2 ^ k) % 2
unfolding from_le_bytes
byte_bit_field [] k h = omega (arith, zero-div (2 ^ k), zero-div (2 ^ (k % 8)))
byte_bit_field (b ∷ bytes) k h = elim (Bool-cases (ltb k 8)) [
  | inl low ↦
      let e : k / 8 ≡ 0 = ground arith in
      let f : k % 8 ≡ k = ground arith in
      rw (e, f) (sym (low_bit b (from_le_bytes bytes) k (ltb→lt k 8 low)))
  | inr high ↦
      let j = k - 8 in
      let e : k / 8 ≡ suc (j / 8) = ground arith in
      let f : k % 8 ≡ j % 8 = ground arith in
      let g : k ≡ j + 8 = ground arith in
      rw (e, f)
        (byte_bit_field bytes j h.1
          ∙ ap (λ t. (t / 2 ^ j) % 2)
              (let s : from_le_bytes bytes ≡ (b + 256 * from_le_bytes bytes) / 256 =
                  omega (arith, h.0) in
                s)
          ∙ ap (λ t. t % 2) (div-div-eq-div-mul (b + 256 * from_le_bytes bytes) 256 (2 ^ j))
          ∙ ap (λ t. ((b + 256 * from_le_bytes bytes) / t) % 2)
              (sym (pow_eight j) ∙ ap (λ t. 2 ^ t) (sym g)))
]

-- A bit inside the data is read without a panic.
bit_val-field :
    (bytes : List ℕ) (k : ℕ)
    → All IsByte bytes
    → k < length bytes * 8
    → bit_val bytes k ≡ parsed ((from_le_bytes bytes / 2 ^ k) % 2)
bit_val-field bytes k h inside =
    let at : ltb (k / 8) (length bytes) ≡ true = lt→ltb (k / 8) (length bytes) (omega arith) in
    rw at (ap parsed (byte_bit_field bytes k h))

-- A field of one bit more: its lowest bit and the field above it.
field-suc : (x m : ℕ) → 0 < m → x % (2 * m) ≡ x % 2 + 2 * ((x / 2) % m)
field-suc x m h =
    let q = x / 2 / m in
    let r = (x / 2) % m in
    let small : r < m = mod-lt (x / 2) h in
    let whole : m * q + r ≡ x / 2 = div-add-mod (x / 2) m in
    let split : x ≡ 2 * m * q + (2 * r + x % 2) = grind (arith, whole) in
    let fits : (2 * r + x % 2) % (2 * m) ≡ 2 * r + x % 2 = mod-eq_of_lt (omega arith) in
    ap (λ t. t % (2 * m)) split
    ∙ mul-add-mod_self_left (2 * m) q (2 * r + x % 2)
    ∙ fits
    ∙ omega arith

pow_next : (i : ℕ) → 2 ^ (i + 1) ≡ 2 * 2 ^ i
pow_next i = simp towards_suc (omega arith)

pow_above : (offset i : ℕ) → 2 ^ (offset + (i + 1)) ≡ 2 ^ (offset + i) * 2
pow_above offset i =
    let e : offset + (i + 1) ≡ suc (offset + i) = omega arith in rw e (pow-suc 2 (offset + i))

with_bit : (p r b q : ℕ) → q ≡ 2 * p → r < p → b < 2 → r + b * p < q
with_bit p r zero q e h k = omega arith
with_bit p r (suc zero) q e h k = omega arith
with_bit p r (suc (suc b)) q e h k = absurd (omega arith)

-- A bit at its place and the field above it are the field with the bit.
joined :
    (p q r b x y m n : ℕ)
    → q ≡ 2 * p
    → n ≡ 2 * m
    → 0 < m
    → b ≡ x % 2
    → y ≡ x / 2
    → r + b * p + q * (y % m) ≡ r + p * (x % n)
joined p q r b x y m n e f pos g k = rw (f, field-suc x m pos, e, k, g) (grind arith)

-- The loop adds the field at its place.
gather-field :
    (bytes : List ℕ) (offset i left result : ℕ)
    → All IsByte bytes
    → i + left ≤ 11
    → offset + i + left ≤ length bytes * 8
    → result < 2 ^ i
    → gather bytes offset i left result
      ≡ parsed (result + 2 ^ i * ((from_le_bytes bytes / 2 ^ (offset + i)) % 2 ^ left))
unfolding gather
gather-field bytes offset i zero result h k inside r =
    rw (mod-one (from_le_bytes bytes / 2 ^ (offset + i))) (ap parsed (omega arith))
gather-field bytes offset i (suc left) result h k inside r =
    let x = from_le_bytes bytes / 2 ^ (offset + i) in
    let b : ℕ = x % 2 in
    let e : bit_val bytes (offset + i) ≡ parsed b =
      bit_val-field bytes (offset + i) h (omega arith) in
    let next : bit_or result (b * 2 ^ i) ≡ result + b * 2 ^ i =
      bit_or_high i result b (omega arith) r (omega arith) in
    let rest =
      gather-field bytes offset (i + 1) left (result + b * 2 ^ i) h (omega arith) (omega arith)
        (with_bit (2 ^ i) result b (2 ^ (i + 1)) (pow_next i) r (omega arith)) in
    let above : from_le_bytes bytes / 2 ^ (offset + (i + 1)) ≡ x / 2 =
      ap (λ t. from_le_bytes bytes / t) (pow_above offset i)
      ∙ sym (div-div-eq-div-mul (from_le_bytes bytes) (2 ^ (offset + i)) 2) in
    rw e (
      rw next (
        rest
        ∙ ap parsed (
            joined (2 ^ i) (2 ^ (i + 1)) result b x (from_le_bytes bytes / 2 ^ (offset + (i + 1)))
              (2 ^ left) (2 ^ suc left) (pow_next i) (pow-succ' 2 left)
              (one-le-pow left 2 (omega arith)) refl above)))

-- A field of at most eleven bits that lies in the data is read as a number, without a panic: the field
-- of the little-endian number of all bytes that begins at the offset. A field that does not is refused.
pub read_bits-field :
    (bytes : List ℕ) (offset n : ℕ)
    → All IsByte bytes
    → n ≤ 11
    → read_bits bytes offset n
      ≡ parsed (
          if ltb (length bytes * 8) (offset + n)
          then none
          else some ((from_le_bytes bytes / 2 ^ offset) % 2 ^ n, offset + n))
unfolding read_bits
read_bits-field bytes offset n h k = elim (Bool-cases (ltb (length bytes * 8) (offset + n))) [
  | inl behind ↦ rw behind refl
  | inr inside ↦
      let zero_above : offset + 0 ≡ offset = omega arith in
      let e : gather bytes offset 0 n 0 ≡ parsed ((from_le_bytes bytes / 2 ^ offset) % 2 ^ n) =
        gather-field bytes offset 0 n 0 h (omega arith) (ground arith) (omega arith)
        ∙ rw zero_above (ap parsed (omega arith)) in
      rw inside (rw e refl)
]
