-- ===== src/Lux/Demosaic.antt =====
-- libs/lux/src/parser.rs: the bilinear demosaic of an RGGB sensor. The floats of the source are a
-- parameter. The rows, which the source computes in parallel, write to parts of the buffer that do not
-- meet, and are taken in order.
pub mod Length
pub mod Flat
use una_os.Prelude.{ℕ, zero, suc, ◌+◌, ◌-◌, ◌*◌, ◌%◌, min, List, [], ◌∷◌, ◌++◌, ◌==◌}
use una_os.Prelude.{Bool, true, false, if◌then◌else◌}
use una_os.Lux.{Parsed, panicked, parsed, ◌>>=◌}
use una_os.Lux.Bayer.{BayerData, get_pixel}

-- `f32`: what the demosaic computes with.
pub record Floats (F : Type 0) : Type 0 where
  pub from_u16 : ℕ → F
  pub add : F → F → F
  pub div : F → ℕ → F

-- A step of -1, 0 or 1 along an axis, clamped to `0..limit - 1`: `idx` of the source.
pub data Shift : Type 0 where
  back stay ahead : Shift

pub shifted : Shift → ℕ → ℕ → ℕ
shifted back x limit = min (x - 1) (limit - 1)
shifted stay x limit = min x (limit - 1)
shifted ahead x limit = min (x + 1) (limit - 1)

module _ {F : Type 0} (floats : Floats F) (bayer : BayerData) (width height : ℕ) where
  open floats use {from_u16, add, div}

  pub sample : ℕ → ℕ → Shift → Shift → Parsed F
  unfolding shifted get_pixel
  sample x y dx dy = do
    v ← get_pixel bayer (shifted dy y height * width + shifted dx x width)
    parsed (from_u16 v)

  -- The neighbours left and right, above and below, at the four sides and at the four corners.
  pub across : ℕ → ℕ → Parsed F
  unfolding sample
  across x y = do a ← sample x y back stay; b ← sample x y ahead stay; parsed (div (add a b) 2)

  pub along : ℕ → ℕ → Parsed F
  unfolding sample
  along x y = do a ← sample x y stay back; b ← sample x y stay ahead; parsed (div (add a b) 2)

  pub sides : ℕ → ℕ → Parsed F
  unfolding sample
  sides x y = do
    a ← sample x y back stay
    b ← sample x y ahead stay
    c ← sample x y stay back
    d ← sample x y stay ahead
    parsed (div (add (add (add a b) c) d) 4)

  pub corners : ℕ → ℕ → Parsed F
  unfolding sample
  corners x y = do
    a ← sample x y back back
    b ← sample x y ahead back
    c ← sample x y back ahead
    d ← sample x y ahead ahead
    parsed (div (add (add (add a b) c) d) 4)

  -- The three channels, by the parity of the row and of the column.
  pub channels : Bool → Bool → ℕ → ℕ → Parsed (F × F × F)
  unfolding across along sides corners
  channels true true x y = do
    r ← sample x y stay stay
    g ← sides x y
    b ← corners x y
    parsed (r, g, b)
  channels true false x y = do
    r ← across x y
    g ← sample x y stay stay
    b ← along x y
    parsed (r, g, b)
  channels false true x y = do
    r ← along x y
    g ← sample x y stay stay
    b ← across x y
    parsed (r, g, b)
  channels false false x y = do
    r ← corners x y
    g ← sides x y
    b ← sample x y stay stay
    parsed (r, g, b)

  pub pixel : ℕ → ℕ → Parsed (F × F × F)
  unfolding channels
  pixel x y = do
    (r, g, b) ← channels (y % 2 == 0) (x % 2 == 0) x y
    parsed (div r 16383, div g 16383, div b 16383)

  -- `for x in 0..width`, with `left` columns to go from the `x`th on.
  pub row : ℕ → ℕ → ℕ → Parsed (List F)
  unfolding pixel
  row y x zero = parsed []
  row y x (suc left) = do
    (r, g, b) ← pixel x y
    rest ← row y (x + 1) left
    parsed (r ∷ g ∷ b ∷ rest)

  pub rows : ℕ → ℕ → Parsed (List F)
  unfolding row
  rows y zero = parsed []
  rows y (suc left) = do line ← row y 0 width; rest ← rows (y + 1) left; parsed (line ++ rest)

  -- `par_chunks_exact_mut` panics when the chunks have no element.
  unfoldable pub demosaic_bilinear : Parsed (List F)
  unfolding rows
  demosaic_bilinear = if width == 0 then panicked else rows 0 height
