-- ===== src/Lux/Arw/Image.antt =====
-- libs/lux/src/parser.rs, parse_arw: what becomes of a file, by the dimensions that it gives.
use una_os.Prelude.{ℕ, ◌*◌, ◌%◌, ◌^◌, ◌≡◌, arith, inl, inr, List}
use una_os.Prelude.{length, All, IsByte}
use mathlib.Core.Path.{subst}
use una_os.Lux.{LuxError, RgbBuffer, Parsed, panicked, parsed, Ensures}
use una_os.Lux.Tiff.{RawImage, locate}
use una_os.Lux.Tiff.Safety.{IsLocated, locate-IsLocated}
use una_os.Lux.Bayer.{decompress_raw, blocks}
use una_os.Lux.Demosaic.{Floats, demosaic_bilinear}
use una_os.Lux.Arw.{develop, parse_arw}

-- Three values for each pixel.
abbrev pub IsFilled : {F : Type 0} → RgbBuffer F → Type 0
IsFilled image = length image.pixels ≡ image.height * (image.width * 3)

module _ {F : Type 0} (floats : Floats F) where
  develop-no_width :
      (mmap : List ℕ) (raw : RawImage)
      → IsLocated mmap raw
      → raw.width ≡ 0
      → develop floats raw ≡ panicked
  unfolding develop decompress_raw demosaic_bilinear
  develop-no_width mmap raw h e =
      let product : (0 * raw.height) % 2 ^ 32 ≡ 0 = omega arith in
      elim h.supported [
        | inl one ↦ rw (one, e, product) (ground arith)
        | inr packed ↦ rw (packed, e, product, blocks)
      ]

  -- A file with raw data and no width, such as one whose directory has no ImageWidth tag, is not
  -- refused: the parser panics.
  pub parse_arw-no_width :
      (mmap : List ℕ) (raw : RawImage)
      → All IsByte mmap
      → locate mmap ≡ parsed raw
      → raw.width ≡ 0
      → parse_arw floats mmap ≡ panicked
  unfolding parse_arw
  parse_arw-no_width mmap raw bytes found e =
      let h : Ensures {E = LuxError} (IsLocated mmap) (parsed raw) =
        subst (λ (r : Parsed RawImage). Ensures (IsLocated mmap) r) found
          (locate-IsLocated mmap bytes) in
      rw found (develop-no_width mmap raw h e)
