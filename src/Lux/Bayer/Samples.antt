-- ===== src/Lux/Bayer/Samples.antt =====
-- libs/lux/src/parser.rs: the decoded samples: how many there are, and their range.
use una_os.Prelude.{ℕ, zero, suc, ◌+◌, ◌-◌, ◌*◌, ◌%◌, ◌^◌, ◌≤◌, ◌≡◌, refl}
use una_os.Prelude.{inl, inr, List, arith, ltb}
use una_os.Prelude.{ltb→le, ◌==◌, length, replicate, All, All-append, All-replicate}
use una_os.Prelude.{length-append, length-replicate, take_all, IsByte}
use una_os.Prelude.{false, Bool-cases, ◌/◌, ◌∷◌, ◌++◌, ap, from_le_bytes}
use una_os.Lux.{Parsed, panicked, failed, parsed, ◌>>=◌, Ensures, Ensures-if, Ensures-bind, Yields}
use una_os.Lux.{Yields-bind, Ensures-of_Yields}
use una_os.Lux.Bayer.{
  BayerData, uncompressed, lossless, read_bits, unwrap, add_delta, deltas, blocks,
}
use una_os.Lux.Bayer.{resize, decompress_raw}
use una_os.Lux.Bayer.Fields.{read_bits-field}

abbrev pub IsSample : ℕ → Type 0
IsSample v = v ≤ 16383

add_delta-IsSample : (v d : ℕ) → IsSample (add_delta v d)
unfolding add_delta
add_delta-IsSample v d = ground arith

-- Samples, at most as many as pixels were left.
abbrev AreSamples : ℕ → List ℕ → Type 0
AreSamples pixels samples = (length samples ≤ pixels) × All IsSample samples

-- What the deltas of a block decode to, for any bytes: the bits are read without a panic.
deltas-IsSample :
    (bytes : List ℕ) (rounds pixels offset v : ℕ)
    → All IsByte bytes
    → Yields (λ block. AreSamples pixels block.0) (deltas bytes rounds pixels offset v)
unfolding deltas
deltas-IsSample bytes zero pixels offset v h = (omega arith, tt)
deltas-IsSample bytes (suc rounds) zero offset v h = (omega arith, tt)
deltas-IsSample bytes (suc rounds) (suc pixels) offset v h =
    let P : List ℕ × ℕ → Type 0 = λ block. AreSamples (suc pixels) block.0 in
    elim (Bool-cases (ltb (length bytes * 8) (offset + 7))) [
      | inl behind ↦
          let e = read_bits-field bytes offset 7 h (omega arith) in
          rw (e, behind, deltas) (omega arith, tt)
      | inr inside ↦
          let e = read_bits-field bytes offset 7 h (omega arith) in
          let d = (from_le_bytes bytes / 2 ^ offset) % 2 ^ 7 in
          rw (e, inside, deltas)
            (Yields-bind (λ block. AreSamples pixels block.0) P
              (deltas bytes rounds pixels (offset + 7) (add_delta v d)) _
              (deltas-IsSample bytes rounds pixels (offset + 7) (add_delta v d) h)
              (λ more (count, range). (omega arith, (add_delta-IsSample v d, range))))
    ]

blocks-IsSample :
    (fuel : ℕ) (bytes : List ℕ) (pixels offset : ℕ)
    → All IsByte bytes
    → Yields (AreSamples pixels) (blocks fuel bytes pixels offset)
unfolding blocks
blocks-IsSample zero bytes pixels offset h = (omega arith, tt)
blocks-IsSample (suc fuel) bytes zero offset h = (omega arith, tt)
blocks-IsSample (suc fuel) bytes (suc pixels) offset h =
    elim (Bool-cases (ltb (length bytes * 8) (offset + 4 + 11))) [
      | inl behind ↦ rw (behind, blocks) (omega arith, tt)
      | inr inside ↦
          let table = read_bits-field bytes offset 4 h (omega arith) in
          let room : ltb (length bytes * 8) (offset + 4) ≡ false = ground arith in
          let field = read_bits-field bytes (offset + 4) 11 h (omega arith) in
          let b = (from_le_bytes bytes / 2 ^ (offset + 4)) % 2 ^ 11 in
          let v = (b * 2) % 2 ^ 16 in
          rw (inside, table, room, field, inside, blocks)
            (Yields-bind (λ block. AreSamples pixels block.0) (AreSamples (suc pixels))
              (deltas bytes 15 pixels (offset + 4 + 11) v) _
              (deltas-IsSample bytes 15 pixels (offset + 4 + 11) v h)
              (λ block (count, range).
                Yields-bind (AreSamples (pixels - length block.0)) (AreSamples (suc pixels))
                  (blocks fuel bytes (pixels - length block.0) block.1) _
                  (blocks-IsSample fuel bytes (pixels - length block.0) block.1 h)
                  (λ more (counts, ranges). (
                    omega (arith, length-append block.0 more),
                    (omega arith, All-append IsSample block.0 more range ranges),
                  ))))
    ]

bind_ap :
    {A B : Type 0} (m : Parsed A) (f g : A → Parsed B)
    → ((x : A) → f x ≡ g x)
    → (m >>= f) ≡ (m >>= g)
bind_ap panicked f g h = refl
bind_ap (failed e) f g h = refl
bind_ap (parsed x) f g h = h x

-- The number of rounds is enough: with more fuel the loop decodes the same.
pub blocks-fuel :
    (fuel more : ℕ) (bytes : List ℕ) (pixels offset : ℕ)
    → pixels ≤ fuel
    → pixels ≤ more
    → blocks fuel bytes pixels offset ≡ blocks more bytes pixels offset
unfolding blocks
blocks-fuel zero zero bytes pixels offset h k = refl
blocks-fuel zero (suc more) bytes zero offset h k = refl
blocks-fuel zero (suc more) bytes (suc pixels) offset h k = absurd (omega arith)
blocks-fuel (suc fuel) zero bytes zero offset h k = refl
blocks-fuel (suc fuel) zero bytes (suc pixels) offset h k = absurd (omega arith)
blocks-fuel (suc fuel) (suc more) bytes zero offset h k = refl
blocks-fuel (suc fuel) (suc more) bytes (suc pixels) offset h k =
    elim (Bool-cases (ltb (length bytes * 8) (offset + 4 + 11))) [
      | inl behind ↦ rw (behind, blocks) refl
      | inr inside ↦
          rw (inside, blocks)
            (bind_ap (read_bits bytes offset 4 >>= unwrap) _ _ λ table_idx.
              bind_ap (read_bits bytes table_idx.1 11 >>= unwrap) _ _ λ base.
                bind_ap (deltas bytes 15 pixels base.1 ((base.0 * 2) % 2 ^ 16)) _ _ λ block.
                  ap (λ m. m >>= (λ rest. parsed ((base.0 * 2) % 2 ^ 16 ∷ (block.0 ++ rest))))
                    (blocks-fuel fuel more bytes (pixels - length block.0) block.1 (omega arith)
                      (omega arith)))
    ]

resize-IsSample :
    (n : ℕ) (xs : List ℕ)
    → length xs ≤ n
    → All IsSample xs
    → (length (resize n xs) ≡ n) × All IsSample (resize n xs)
resize-IsSample n xs h k = rw (take_all n xs h) (
  omega (
    arith,
    length-append xs (replicate (n - length xs) 0),
    length-replicate {A = ℕ} (n - length xs) 0,
  ),
  All-append IsSample xs _ k (All-replicate IsSample (n - length xs) 0 (omega arith)),
)

-- What a compressed strip decodes to.
abbrev pub IsBayer : ℕ → BayerData → Type 0
IsBayer count (uncompressed bytes) = count * 2 ≤ length bytes
IsBayer count (lossless samples) = (length samples ≡ count) × All IsSample samples

-- For any bytes and dimensions, also when the data is too short, decoding ends without a panic. If it
-- succeeds, the samples are as many as the 32-bit product of the dimensions: compressed ones are all
-- at most 16383, the largest value of 14 bits, and uncompressed ones have two bytes each.
pub decompress_raw-IsBayer :
    (compression : ℕ) (bytes : List ℕ) (width height : ℕ)
    → All IsByte bytes
    → Ensures (IsBayer ((width * height) % 2 ^ 32)) (decompress_raw compression bytes width height)
unfolding decompress_raw
decompress_raw-IsBayer compression bytes width height h =
    let n : ℕ = (width * height) % 2 ^ 32 in
    Ensures-if (IsBayer n) (compression == 1) _ _
      (λ _. Ensures-if (IsBayer n) (ltb (length bytes) (n * 2)) _ _ (λ _. tt) (ltb→le _ _))
      λ _.
        Ensures-if (IsBayer n) (compression == 32769) _ _
          (λ _.
            Ensures-bind (AreSamples n) (IsBayer n) (blocks n bytes n 0) _
              (Ensures-of_Yields (AreSamples n) (blocks n bytes n 0)
                (blocks-IsSample n bytes n 0 h))
              (λ samples (count, range). resize-IsSample n samples count range))
          (λ _. tt)
