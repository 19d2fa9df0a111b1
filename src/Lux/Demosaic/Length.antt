-- ===== src/Lux/Demosaic/Length.antt =====
-- libs/lux/src/parser.rs: the demosaic stays inside the samples, and gives three values a pixel.
use una_os.Prelude.{ℕ, zero, suc, ◌+◌, ◌*◌, ◌%◌, ◌<◌, ◌≡◌, arith}
use una_os.Prelude.{Bool, true, false, ◌==◌}
use una_os.Prelude.{length, length-append}
use una_os.Lux.{Parsed, ◌>>=◌, Yields, Yields-bind}
use una_os.Lux.Bayer.{BayerData, uncompressed, lossless, get_pixel}
use una_os.Lux.Bayer.Samples.{IsBayer}
use una_os.Lux.Demosaic.{Floats, Shift, back, stay, ahead, shifted, sample, across, along, sides}
use una_os.Lux.Demosaic.{corners, channels, pixel, row, rows, demosaic_bilinear}

abbrev Any : {A : Type 0} → A → Type 0
Any a = Unit {0}

pub shifted-lt : (d : Shift) (x limit : ℕ) → 0 < limit → shifted d x limit < limit
unfolding shifted
shifted-lt back x limit h = omega arith
shifted-lt stay x limit h = omega arith
shifted-lt ahead x limit h = omega arith

pub index-lt : (w h x y : ℕ) → x < w → y < h → y * w + x < w * h
index-lt w h x y p q = grind arith

get_pixel_in :
    (count : ℕ) (bayer : BayerData) (idx : ℕ)
    → IsBayer count bayer
    → idx < count
    → Yields Any (get_pixel bayer idx)
unfolding get_pixel
get_pixel_in count (uncompressed bytes) idx h k = ground arith
get_pixel_in count (lossless samples) idx h k = ground arith

module _ {F : Type 0} (floats : Floats F) (bayer : BayerData) (width height : ℕ)
    (enough : IsBayer (width * height) bayer) (wide : 0 < width) (high : 0 < height) where
  sample_in : (x y : ℕ) (dx dy : Shift) → Yields Any (sample floats bayer width height x y dx dy)
  unfolding sample
  sample_in x y dx dy =
      let idx = shifted dy y height * width + shifted dx x width in
      Yields-bind Any Any (get_pixel bayer idx) _
        (get_pixel_in (width * height) bayer idx enough (
          index-lt width height (shifted dx x width) (shifted dy y height)
            (shifted-lt dx x width wide) (shifted-lt dy y height high)))
        (λ v _. tt)

  after_sample :
      {B : Type 0} (Q : B → Type 0) (x y : ℕ) (dx dy : Shift) (f : F → Parsed B)
      → ((v : F) → Yields Q (f v))
      → Yields Q (sample floats bayer width height x y dx dy >>= f)
  after_sample Q x y dx dy f k =
      Yields-bind Any Q (sample floats bayer width height x y dx dy) f (sample_in x y dx dy)
        (λ v _. k v)

  after_across :
      {B : Type 0} (Q : B → Type 0) (x y : ℕ) (f : F → Parsed B)
      → ((v : F) → Yields Q (f v))
      → Yields Q (across floats bayer width height x y >>= f)
  unfolding across
  after_across Q x y f k =
      Yields-bind Any Q (across floats bayer width height x y) f
        (after_sample Any x y back stay _ λ a. after_sample Any x y ahead stay _ λ b. tt)
        (λ v _. k v)

  after_along :
      {B : Type 0} (Q : B → Type 0) (x y : ℕ) (f : F → Parsed B)
      → ((v : F) → Yields Q (f v))
      → Yields Q (along floats bayer width height x y >>= f)
  unfolding along
  after_along Q x y f k =
      Yields-bind Any Q (along floats bayer width height x y) f
        (after_sample Any x y stay back _ λ a. after_sample Any x y stay ahead _ λ b. tt)
        (λ v _. k v)

  after_sides :
      {B : Type 0} (Q : B → Type 0) (x y : ℕ) (f : F → Parsed B)
      → ((v : F) → Yields Q (f v))
      → Yields Q (sides floats bayer width height x y >>= f)
  unfolding sides
  after_sides Q x y f k =
      Yields-bind Any Q (sides floats bayer width height x y) f
        (after_sample Any x y back stay _ λ a.
          after_sample Any x y ahead stay _
            λ b. after_sample Any x y stay back _ λ c. after_sample Any x y stay ahead _ λ d. tt)
        (λ v _. k v)

  after_corners :
      {B : Type 0} (Q : B → Type 0) (x y : ℕ) (f : F → Parsed B)
      → ((v : F) → Yields Q (f v))
      → Yields Q (corners floats bayer width height x y >>= f)
  unfolding corners
  after_corners Q x y f k =
      Yields-bind Any Q (corners floats bayer width height x y) f
        (after_sample Any x y back back _ λ a.
          after_sample Any x y ahead back _
            λ b. after_sample Any x y back ahead _ λ c. after_sample Any x y ahead ahead _ λ d. tt)
        (λ v _. k v)

  channels_in :
      (even odd : Bool) (x y : ℕ) → Yields Any (channels floats bayer width height even odd x y)
  unfolding channels
  channels_in true true x y =
      after_sample Any x y stay stay _
        λ r. after_sides Any x y _ λ g. after_corners Any x y _ λ b. tt
  channels_in true false x y =
      after_across Any x y _
        λ r. after_sample Any x y stay stay _ λ g. after_along Any x y _ λ b. tt
  channels_in false true x y =
      after_along Any x y _
        λ r. after_sample Any x y stay stay _ λ g. after_across Any x y _ λ b. tt
  channels_in false false x y =
      after_corners Any x y _
        λ r. after_sides Any x y _ λ g. after_sample Any x y stay stay _ λ b. tt

  pixel_in : (x y : ℕ) → Yields Any (pixel floats bayer width height x y)
  unfolding pixel
  pixel_in x y =
      Yields-bind Any Any (channels floats bayer width height (y % 2 == 0) (x % 2 == 0) x y) _
        (channels_in (y % 2 == 0) (x % 2 == 0) x y) (λ c _. tt)

  row_in :
      (y x left : ℕ)
      → Yields (λ line. length line ≡ left * 3) (row floats bayer width height y x left)
  unfolding row
  row_in y x zero = omega arith
  row_in y x (suc left) =
      Yields-bind Any (λ line. length line ≡ suc left * 3) (pixel floats bayer width height x y) _
        (pixel_in x y)
        λ c _.
          Yields-bind (λ line. length line ≡ left * 3) (λ line. length line ≡ suc left * 3)
            (row floats bayer width height y (x + 1) left) _ (row_in y (x + 1) left)
            (λ rest size. omega arith)

  rows_in :
      (y left : ℕ)
      → Yields (λ image. length image ≡ left * (width * 3)) (rows floats bayer width height y left)
  unfolding rows
  rows_in y zero = omega arith
  rows_in y (suc left) =
      Yields-bind (λ line. length line ≡ width * 3) (λ image. length image ≡ suc left * (width * 3))
        (row floats bayer width height y 0 width) _ (row_in y 0 width)
        λ line size.
          Yields-bind (λ image. length image ≡ left * (width * 3))
            (λ image. length image ≡ suc left * (width * 3))
            (rows floats bayer width height (y + 1) left) _ (rows_in (y + 1) left)
            (λ rest more. grind (arith, length-append line rest))

-- Where there is a sample for each pixel, no read is out of bounds, at the borders as well, and the
-- image has three values for each pixel.
pub demosaic_bilinear-length :
    {F : Type 0} (floats : Floats F) (bayer : BayerData) (width height : ℕ)
    → IsBayer (width * height) bayer
    → 0 < width
    → Yields
        (λ image. length image ≡ height * (width * 3))
        (demosaic_bilinear floats bayer width height)
unfolding demosaic_bilinear
demosaic_bilinear-length floats bayer width zero h wide = ground arith
demosaic_bilinear-length floats bayer width (suc height) h wide =
    let e : (width == 0) ≡ false = ground arith in
    rw e (rows_in floats bayer width (suc height) h wide (omega arith) 0 (suc height))
