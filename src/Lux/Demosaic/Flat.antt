-- ===== src/Lux/Demosaic/Flat.antt =====
-- libs/lux/src/parser.rs: the demosaic of a sensor under light of one colour.
use una_os.Prelude.{ℕ, ◌+◌, ◌*◌, ◌%◌, ◌<◌, ◌≡◌, refl, arith}
use una_os.Prelude.{Bool, true, false, not, ◌==◌}
use una_os.Lux.{parsed}
use una_os.Lux.Bayer.{BayerData, get_pixel}
use una_os.Lux.Demosaic.{Floats, Shift, back, stay, ahead, shifted, sample, across, along, sides}
use una_os.Lux.Demosaic.{corners, channels, pixel}
use una_os.Lux.Demosaic.Length.{shifted-lt}

-- Which of the three values a sensor has, by the parity of its row and column: red and green in
-- even rows, green and blue in odd ones.
abbrev pub filtered : ℕ → ℕ → ℕ → Bool → Bool → ℕ
filtered r g b true true = r
filtered r g b true false = g
filtered r g b false true = g
filtered r g b false false = b

abbrev flipped : Shift → Bool → Bool
flipped back e = not e
flipped stay e = e
flipped ahead e = not e

even-shifted :
    (d : Shift) (x limit : ℕ)
    → 0 < x
    → x + 1 < limit
    → (shifted d x limit % 2 == 0) ≡ flipped d (x % 2 == 0)
unfolding shifted
even-shifted back x limit h k = ground arith
even-shifted stay x limit h k = ground arith
even-shifted ahead x limit h k = ground arith

module _ {F : Type 0} (floats : Floats F) (bayer : BayerData) (width height r g b : ℕ)
    (flat : (x y : ℕ)
      → x < width
      → y < height
      → get_pixel bayer (y * width + x) ≡ parsed (filtered r g b (y % 2 == 0) (x % 2 == 0)))
    (half : (v : ℕ) → let f = floats.from_u16 v in floats.div (floats.add f f) 2 ≡ f)
    (quarter : (v : ℕ)
      → let f = floats.from_u16 v in
        floats.div (floats.add (floats.add (floats.add f f) f) f) 4 ≡ f)
    (x y : ℕ) (left : 0 < x) (right : x + 1 < width) (top : 0 < y) (bottom : y + 1 < height) where
  open floats use {from_u16, div}

  sample_flat :
      (even odd : Bool) (dx dy : Shift)
      → (y % 2 == 0) ≡ even
      → (x % 2 == 0) ≡ odd
      → sample floats bayer width height x y dx dy
        ≡ parsed (from_u16 (filtered r g b (flipped dy even) (flipped dx odd)))
  unfolding sample
  sample_flat even odd dx dy e o = rw (
    flat (shifted dx x width) (shifted dy y height) (shifted-lt dx x width (omega arith))
        (shifted-lt dy y height (omega arith)),
    even-shifted dx x width left right,
    even-shifted dy y height top bottom,
    e,
    o,
  )

  channels_flat :
      (even odd : Bool)
      → (y % 2 == 0) ≡ even
      → (x % 2 == 0) ≡ odd
      → channels floats bayer width height even odd x y
        ≡ parsed (from_u16 r, from_u16 g, from_u16 b)
  unfolding channels across along sides corners
  channels_flat true true e o =
      let s = λ (dx dy : Shift). sample_flat true true dx dy e o in simp (s, quarter g, quarter b)
  channels_flat true false e o =
      let s = λ (dx dy : Shift). sample_flat true false dx dy e o in simp (s, half r, half b)
  channels_flat false true e o =
      let s = λ (dx dy : Shift). sample_flat false true dx dy e o in simp (s, half r, half b)
  channels_flat false false e o =
      let s = λ (dx dy : Shift). sample_flat false false dx dy e o in simp (s, quarter r, quarter g)

  -- Under light of one colour, where the mean of equal values is that value, a pixel that is not on
  -- the border of the image has that colour, whichever filter covers it.
  pub pixel_flat :
      pixel floats bayer width height x y
      ≡ parsed (div (from_u16 r) 16383, div (from_u16 g) 16383, div (from_u16 b) 16383)
  unfolding pixel
  pixel_flat = rw (channels_flat (y % 2 == 0) (x % 2 == 0) refl refl)
