-- ===== src/Lux/Arw.antt =====
-- libs/lux/src/parser.rs, parse_arw: locate the strip, decode it, interpolate it.
pub mod Image
use una_os.Prelude.{ℕ, ◌*◌, ◌%◌, ◌^◌, ◌<◌, ◌≡◌, List}
use una_os.Lux.{RgbBuffer, Parsed, parsed, ◌>>=◌}
use una_os.Lux.Tiff.{RawImage, locate}
use una_os.Lux.Bayer.{decompress_raw}
use una_os.Lux.Demosaic.{Floats, demosaic_bilinear}

module _ {F : Type 0} (floats : Floats F) where
  -- The steps after the strip is found.
  pub develop : RawImage → Parsed (RgbBuffer F)
  unfolding decompress_raw demosaic_bilinear
  develop raw = do
    bayer ← decompress_raw raw.compression raw.bytes raw.width raw.height
    pixels ← demosaic_bilinear floats bayer raw.width raw.height
    parsed (record { width = raw.width; height = raw.height; pixels = pixels })

  pub parse_arw : List ℕ → Parsed (RgbBuffer F)
  unfolding locate develop
  parse_arw mmap = do raw ← locate mmap; develop raw
