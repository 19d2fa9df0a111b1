-- ===== src/Lux/Bayer.antt =====
-- libs/lux/src/parser.rs: the raw samples, stored as they are or as blocks of deltas.
pub mod Fields
pub mod Samples
use una_os.Prelude.{ℕ, zero, suc, ◌+◌, ◌-◌, ◌*◌, ◌/◌, ◌%◌, ◌^◌, min, bit_or, List, [], ◌∷◌, ◌++◌}
use una_os.Prelude.{Option, none, some, ltb, leb, ◌==◌, if◌then◌else◌}
use una_os.Prelude.{length, get_or, take, replicate}
use una_os.Prelude.Bits.{bit}
use una_os.Lux.{unsupported_compression, corrupt_data, Parsed, panicked, failed, parsed, ◌>>=◌}

pub data BayerData : Type 0 where
  uncompressed : List ℕ → BayerData
  lossless : List ℕ → BayerData

unfoldable pub get_pixel : BayerData → ℕ → Parsed ℕ
get_pixel (uncompressed bytes) idx =
    if ltb (idx * 2 + 1) (length bytes)
    then parsed (get_or bytes (idx * 2) 0 + 256 * get_or bytes (idx * 2 + 1) 0)
    else panicked
get_pixel (lossless samples) idx =
    if ltb idx (length samples) then parsed (get_or samples idx 0) else panicked

-- `(data[byte_idx] >> bit_in_byte) & 1`: an index behind the data panics.
abbrev pub bit_val : List ℕ → ℕ → Parsed ℕ
bit_val bytes bit_idx =
    if ltb (bit_idx / 8) (length bytes)
    then parsed ((get_or bytes (bit_idx / 8) 0 / 2 ^ (bit_idx % 8)) % 2)
    else panicked

-- `for i in 0..bits { result |= bit_val << i }`, with `left` bits to read from the `i`th on.
pub gather : List ℕ → ℕ → ℕ → ℕ → ℕ → Parsed ℕ
gather bytes offset i zero result = parsed result
gather bytes offset i (suc left) result =
    bit_val bytes (offset + i)
    >>= (λ b. gather bytes offset (i + 1) left (bit_or result (b * 2 ^ i)))

-- The field and the offset behind it.
unfoldable pub read_bits : List ℕ → ℕ → ℕ → Parsed (Option (ℕ × ℕ))
unfolding gather
read_bits bytes offset bits =
    if ltb (length bytes * 8) (offset + bits)
    then parsed none
    else gather bytes offset 0 bits 0 >>= (λ result. parsed (some (result, offset + bits)))

-- `.unwrap()`
abbrev pub unwrap : {A : Type 0} → Option A → Parsed A
unwrap none = panicked
unwrap (some x) = parsed x

-- `(current_val as i32 + delta).clamp(0, 16383)`: the bits of the delta are a number below 128, whose
-- bit 6 is the sign. A difference below 0 is 0 on the natural numbers, as it is after the clamp.
unfoldable pub add_delta : ℕ → ℕ → ℕ
unfolding bit
add_delta current_val delta_raw =
    if bit delta_raw 6
    then min (current_val - (128 - delta_raw)) 16383
    else min (current_val + delta_raw) 16383

-- `for _ in 0..15`, with `pixels` still to decode: the samples and the offset behind them.
pub deltas : List ℕ → ℕ → ℕ → ℕ → ℕ → Parsed (List ℕ × ℕ)
unfolding read_bits add_delta
deltas bytes zero pixels offset current_val = parsed ([], offset)
deltas bytes (suc rounds) zero offset current_val = parsed ([], offset)
deltas bytes (suc rounds) (suc pixels) offset current_val = read_bits bytes offset 7 >>= (λ field.
    elim field [
      | none ↦ parsed ([], offset)
      | some (delta_raw, offset') ↦
          let next_val = add_delta current_val delta_raw in
          deltas bytes rounds pixels offset' next_val
          >>= (λ more. parsed (next_val ∷ more.0, more.1))
    ])

-- The `while` loop, with `pixels` still to decode: each round decodes one at least, so `fuel` is as
-- many rounds as there are pixels. The 4 bits of the table index are not used.
pub blocks : ℕ → List ℕ → ℕ → ℕ → Parsed (List ℕ)
unfolding deltas
blocks zero bytes pixels offset = parsed []
blocks (suc fuel) bytes zero offset = parsed []
blocks (suc fuel) bytes (suc pixels) offset =
    if ltb (length bytes * 8) (offset + 4 + 11)
    then parsed []
    else read_bits bytes offset 4 >>= unwrap >>= (λ table_idx.
      read_bits bytes table_idx.1 11 >>= unwrap >>= (λ base.
        let current_val = (base.0 * 2) % 2 ^ 16 in
        deltas bytes 15 pixels base.1 current_val >>= (λ block.
          blocks fuel bytes (pixels - length block.0) block.1
          >>= (λ more. parsed (current_val ∷ (block.0 ++ more))))))

-- `vec.resize(n, 0)`
abbrev pub resize : ℕ → List ℕ → List ℕ
resize n xs = take n xs ++ replicate (n - length xs) 0

-- The product of the two dimensions is taken on 32 bits.
unfoldable pub decompress_raw : ℕ → List ℕ → ℕ → ℕ → Parsed BayerData
unfolding blocks
decompress_raw compression bytes width height =
    let pixel_count = (width * height) % 2 ^ 32 in
    if compression == 1
    then (if ltb (length bytes) (pixel_count * 2)
        then failed corrupt_data
        else parsed (uncompressed bytes))
    else if compression == 32769
    then blocks pixel_count bytes pixel_count 0
      >>= (λ bayer. parsed (lossless (resize pixel_count bayer)))
    else failed (unsupported_compression compression)
