-- ===== src/Net/Ipv4/Checksum.antt =====
-- unaos/crates/net/src/ipv4.rs, verify_checksum, against the sum of RFC 1071: the header is valid
-- when its 16-bit words sum to a positive multiple of 65535.
use una_os.Prelude.{ℕ, zero, suc, ◌+◌, ◌-◌, ◌*◌, ◌/◌, ◌%◌, ◌^◌, ◌≤◌, ◌<◌, ◌≡◌, refl, ap, ◌∙◌}
use una_os.Prelude.{◌&&◌, ltb→lt, Bool-cases, inl, inr, List, [], ◌∷◌, some, ltb, ◌==◌}
use una_os.Prelude.{length, get_or, take, drop, All, IsByte, All-get_or, arith, from_be_u16}
use una_os.Prelude.Outcome.{returned, index, index_in}
use una_os.Net.Ipv4.{Ipv4Header, new, header_length, sum_words, fold_carries, verify_checksum}

pub word_total : List ℕ → ℕ
word_total [] = 0
word_total (hi ∷ []) = 0
word_total (hi ∷ lo ∷ rest) = (hi * 256 + lo) + word_total rest

-- What the guards of `Ipv4Header::new` establish.
pub new-IsParsed :
    (buffer : List ℕ) (h : Ipv4Header)
    → new buffer ≡ returned (some h)
    → (h.buffer ≡ buffer)
      × (20 ≤ length buffer)
      × (get_or buffer 0 0 / 16 ≡ 4)
      × ((get_or buffer 0 0 % 16) * 4 ≤ length buffer)
unfolding new index
new-IsParsed buffer h e = elim (Bool-cases (ltb (length buffer) 20)) [
  | inl k ↦ absurd (ground arith)
  | inr k ↦ (ground arith, ground arith, ground arith, ground arith)
]

drop-get : (xs : List ℕ) (i : ℕ) → i < length xs → drop i xs ≡ get_or xs i 0 ∷ drop (i + 1) xs
drop-get [] i h = absurd (omega arith)
drop-get (x ∷ xs) zero h = refl
drop-get (x ∷ xs) (suc i) h =
    let e : suc i + 1 ≡ suc (i + 1) = omega arith in rw e (drop-get xs i (omega arith))

pub fold_carries-mod : (n sum : ℕ) → fold_carries n sum % 65535 ≡ sum % 65535
unfolding fold_carries
fold_carries-mod zero sum = refl
fold_carries-mod (suc n) sum = elim (Bool-cases (sum / 65536 == 0)) [
  | inl e ↦ rw (e, fold_carries)
  | inr e ↦ rw (e, fold_carries) (fold_carries-mod n (sum % 65536 + sum / 65536) ∙ omega arith)
]

-- The loop has ended when the fuel is the sum itself.
pub fold_carries-lt : (n sum : ℕ) → sum ≤ n → fold_carries n sum < 65536
unfolding fold_carries
fold_carries-lt zero sum h = omega arith
fold_carries-lt (suc n) sum h = elim (Bool-cases (sum / 65536 == 0)) [
  | inl e ↦ rw (e, fold_carries) (ground arith)
  | inr e ↦ rw (e, fold_carries) (fold_carries-lt n (sum % 65536 + sum / 65536) (ground arith))
]

fold_carries-positive : (n sum : ℕ) → 0 < sum → 0 < fold_carries n sum
unfolding fold_carries
fold_carries-positive zero sum h = h
fold_carries-positive (suc n) sum h = elim (Bool-cases (sum / 65536 == 0)) [
  | inl e ↦ rw (e, fold_carries) h
  | inr e ↦
      rw (e, fold_carries) (fold_carries-positive n (sum % 65536 + sum / 65536) (ground arith))
]

folded_zero : (n : ℕ) → fold_carries n 0 ≡ 0
unfolding fold_carries
folded_zero zero = refl
folded_zero (suc n) = refl

take_pair :
    (xs : List ℕ) (n i : ℕ)
    → i + 2 ≤ length xs
    → take (suc n * 2) (drop i xs)
      ≡ get_or xs i 0 ∷ get_or xs (i + 1) 0 ∷ take (n * 2) (drop (i + 2) xs)
take_pair xs n i h =
    let e : suc n * 2 ≡ suc (suc (n * 2)) = omega arith in
    let f : i + 1 + 1 ≡ i + 2 = omega arith in
    rw (e, drop-get xs i (omega arith), drop-get xs (i + 1) (omega arith), f)

-- The loop computes the sum of the words it covers, which its 32 bits hold.
sum_words-total :
    (buffer : List ℕ) (n i sum : ℕ)
    → All IsByte buffer
    → i + n * 2 ≤ length buffer
    → sum + n * 65535 < 2 ^ 32
    → sum_words buffer n i sum ≡ returned (sum + word_total (take (n * 2) (drop i buffer)))
unfolding sum_words word_total
sum_words-total buffer zero i sum bytes h k = ap returned (omega arith)
sum_words-total buffer (suc n) i sum bytes h k =
    let lo : get_or buffer i 0 < 256 = All-get_or IsByte buffer i 0 bytes (omega arith) in
    let hi : get_or buffer (i + 1) 0 < 256 =
      All-get_or IsByte buffer (i + 1) 0 bytes (omega arith) in
    let small : (sum + from_be_u16 (get_or buffer i 0) (get_or buffer (i + 1) 0)) % 2 ^ 32
        ≡ sum + from_be_u16 (get_or buffer i 0) (get_or buffer (i + 1) 0) =
      omega arith in
    let pair : take (suc n * 2) (drop i buffer)
        ≡ get_or buffer i 0 ∷ get_or buffer (i + 1) 0 ∷ take (n * 2) (drop (i + 2) buffer) =
      take_pair buffer n i (omega arith) in
    rw
      (
        index_in buffer i (omega arith),
        index_in buffer (i + 1) (omega arith),
        small,
        sum_words-total buffer n (i + 2)
            (sum + from_be_u16 (get_or buffer i 0) (get_or buffer (i + 1) 0)) bytes (omega arith)
            (omega arith),
        pair,
      )
      (ap returned (omega arith))

folded :
    (total : ℕ)
    → ((2 ^ 32 - 1 - fold_carries total total) % 65536 == 0) ≡ (ltb 0 total && (total % 65535 == 0))
folded total = elim (Bool-cases (ltb 0 total)) [
  | inl e ↦
      let a = fold_carries-mod total total in
      let b = fold_carries-lt total total (omega arith) in
      let c = fold_carries-positive total total (ltb→lt 0 total e) in rw e (ground arith)
  | inr e ↦ let z : total ≡ 0 = ground arith in rw (z, folded_zero 0)
]

-- The checksum is decided on every parsed header, and it holds exactly when the words of the header
-- sum to a positive multiple of 65535.
pub verify_checksum-total :
    (buffer : List ℕ) (h : Ipv4Header)
    → All IsByte buffer
    → new buffer ≡ returned (some h)
    → let total : ℕ = word_total (take ((get_or buffer 0 0 % 16) * 4) buffer) in
      verify_checksum h ≡ returned (ltb 0 total && (total % 65535 == 0))
unfolding verify_checksum header_length
verify_checksum-total buffer h bytes e =
    let (same, long, version, fits) = new-IsParsed buffer h e in
    let n : ℕ = ((get_or buffer 0 0 % 16) * 4 + 1) / 2 in
    let even : n * 2 ≡ (get_or buffer 0 0 % 16) * 4 = omega arith in
    let zero_plus : (x : ℕ) → 0 + x ≡ x = λ x. omega arith in
    rw (
      same,
      index_in buffer 0 (omega arith),
      sum_words-total buffer n 0 0 bytes (omega arith) (omega arith),
      even,
      zero_plus,
      folded (word_total (take ((get_or buffer 0 0 % 16) * 4) buffer)),
    )
