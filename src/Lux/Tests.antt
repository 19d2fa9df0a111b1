-- ===== src/Lux/Tests.antt =====
-- libs/lux/src/parser.rs: small files, and the theorems applied to them.
use una_os.Prelude.{ℕ, zero, suc, ◌+◌, ◌*◌, ◌/◌, ◌%◌, ◌^◌, ◌<◌, ◌≡◌, refl, arith}
use una_os.Prelude.{
  List, [], ◌∷◌, ◌++◌, some, none, ltb, ◌==◌, if◌then◌else◌, length, All, IsByte, replicate,
}
use una_os.Prelude.{from_le_bytes, slice}
use una_os.Lux.{Parsed, panicked, failed, parsed, corrupt_data, Ensures}
use una_os.Lux.Tiff.{RawImage, locate}
use una_os.Lux.Bayer.{BayerData, lossless, read_bits, decompress_raw, get_pixel}
use una_os.Lux.Bayer.Fields.{read_bits-field}
use una_os.Lux.Bayer.Samples.{IsBayer, decompress_raw-IsBayer}
use una_os.Lux.Demosaic.{Floats, pixel}
use una_os.Lux.Demosaic.Flat.{filtered, pixel_flat}
use una_os.Lux.Arw.{parse_arw}
use una_os.Lux.Arw.Image.{parse_arw-no_width}

-- Whole numbers in place of floats.
abbrev whole : Floats ℕ
whole = record { from_u16 = λ v. v; add = λ a b. a + b; div = λ a n. a / n }

-- An entry of a directory: a tag of type LONG with one value.
abbrev entry : ℕ → ℕ → List ℕ
entry tag value =
    (tag % 256) ∷ (tag / 256) ∷ 4 ∷ 0 ∷ 1 ∷ 0 ∷ 0 ∷ 0 ∷ (value % 256) ∷ (value / 256) ∷ 0 ∷ 0 ∷ []

abbrev header : ℕ → List ℕ
header entries = 0x49 ∷ 0x49 ∷ 42 ∷ 0 ∷ 8 ∷ 0 ∷ 0 ∷ 0 ∷ entries ∷ 0 ∷ []

-- Four samples of two bytes.
abbrev strip : List ℕ
strip = 10 ∷ 0 ∷ 20 ∷ 0 ∷ 20 ∷ 0 ∷ 30 ∷ 0 ∷ []

abbrev photo : List ℕ
photo =
    header 5
    ++ (entry 256 2
        ++ (entry 257 2
            ++ (entry 259 1 ++ (entry 273 74 ++ (entry 279 8 ++ (0 ∷ 0 ∷ 0 ∷ 0 ∷ strip))))))

-- The same file without its ImageWidth tag.
abbrev no_width : List ℕ
no_width =
    header 4
    ++ (entry 257 2 ++ (entry 259 1 ++ (entry 273 62 ++ (entry 279 8 ++ (0 ∷ 0 ∷ 0 ∷ 0 ∷ strip)))))

abbrev raw_photo : RawImage
raw_photo = record { width = 2; height = 2; compression = 1; bytes = strip }

abbrev raw_no_width : RawImage
raw_no_width = record { width = 0; height = 2; compression = 1; bytes = strip }

no_width_located : locate no_width ≡ parsed raw_no_width
unfolding locate slice
no_width_located = refl

truncated : locate (header 5) ≡ failed corrupt_data
unfolding locate slice
truncated = refl

no_width_bytes : All IsByte no_width
no_width_bytes = omega arith

abbrev dimensions : Parsed RawImage → ℕ × ℕ
dimensions (parsed raw) = (raw.width, raw.height)
dimensions _ = (0, 0)

parse_arw-no_width_example : parse_arw whole no_width ≡ panicked
parse_arw-no_width_example =
    parse_arw-no_width whole no_width raw_no_width no_width_bytes no_width_located refl

-- A block: table index 0, base 5, then deltas of 0.
abbrev packed : List ℕ
packed = 0x50 ∷ replicate 14 0

packed_bytes : All IsByte packed
packed_bytes = omega arith

read_bits-field_example :
    read_bits packed 4 11
    ≡ parsed (
        if ltb (length packed * 8) (4 + 11)
        then none
        else some ((from_le_bytes packed / 2 ^ 4) % 2 ^ 11, 4 + 11))
read_bits-field_example = read_bits-field packed 4 11 packed_bytes (omega arith)

decompress_raw-IsBayer_example :
    Ensures (IsBayer ((4 * 4) % 2 ^ 32)) (decompress_raw 32769 packed 4 4)
decompress_raw-IsBayer_example = decompress_raw-IsBayer 32769 packed 4 4 packed_bytes

decoded : decompress_raw 32769 packed 4 1 ≡ parsed (lossless (10 ∷ 10 ∷ 10 ∷ 10 ∷ []))
unfolding decompress_raw
decoded = refl

-- A sensor of three by three under one colour.
abbrev sensor : BayerData
sensor = lossless (3 ∷ 5 ∷ 3 ∷ 5 ∷ 7 ∷ 5 ∷ 3 ∷ 5 ∷ 3 ∷ [])

sensor_flat :
    (x y : ℕ)
    → x < 3
    → y < 3
    → get_pixel sensor (y * 3 + x) ≡ parsed (filtered 3 5 7 (y % 2 == 0) (x % 2 == 0))
unfolding get_pixel
sensor_flat zero zero h k = refl
sensor_flat zero (suc zero) h k = refl
sensor_flat zero (suc (suc zero)) h k = refl
sensor_flat (suc zero) zero h k = refl
sensor_flat (suc zero) (suc zero) h k = refl
sensor_flat (suc zero) (suc (suc zero)) h k = refl
sensor_flat (suc (suc zero)) zero h k = refl
sensor_flat (suc (suc zero)) (suc zero) h k = refl
sensor_flat (suc (suc zero)) (suc (suc zero)) h k = refl
sensor_flat (suc (suc (suc x))) y h k = absurd (omega arith)
sensor_flat x (suc (suc (suc y))) h k = absurd (omega arith)

pixel_flat_example : pixel whole sensor 3 3 1 1 ≡ parsed (3 / 16383, 5 / 16383, 7 / 16383)
pixel_flat_example =
    pixel_flat whole sensor 3 3 3 5 7 sensor_flat (λ v. omega arith) (λ v. omega arith) 1 1
      (omega arith) (omega arith) (omega arith) (omega arith)
