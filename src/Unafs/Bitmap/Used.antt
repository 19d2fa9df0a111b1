-- ===== src/Unafs/Bitmap/Used.antt =====
-- The view of the bitmap that its clients have: which blocks are in use.
use una_os.Prelude.{ℕ, suc, ◌-◌, ◌*◌, ◌/◌, ◌%◌, ◌≤◌, ◌<◌, List, ◌∷◌, ◌≡◌, arith, Bool}
use una_os.Prelude.{length, get_or, All, IsByte}
use una_os.Prelude.Bits.{bit}
use una_os.Unafs.Bitmap.{SpaceMap}

-- Whether the bit of block `j` is set; a block past the bytes is not in use.
abbrev pub used_at : List ℕ → ℕ → Bool
used_at bits j = bit (get_or bits (j / 8) 0) (j % 8)

abbrev pub used : SpaceMap → ℕ → Bool
used m j = used_at m.bits j

-- Every byte is a byte, and every block has its bit.
pub record IsValid (m : SpaceMap) : Type 0 where
  pub bytes : All IsByte m.bits
  pub covers : m.block_count ≤ 8 * length m.bits

pub used_head : (b : ℕ) (bs : List ℕ) (j : ℕ) → j < 8 → used_at (b ∷ bs) j ≡ bit b j
used_head b bs j h = let e : j / 8 ≡ 0 = omega arith in let f : j % 8 ≡ j = omega arith in rw (e, f)

pub used_tail : (b : ℕ) (bs : List ℕ) (j : ℕ) → 8 ≤ j → used_at (b ∷ bs) j ≡ used_at bs (j - 8)
used_tail b bs j h =
    let e : j / 8 ≡ suc ((j - 8) / 8) = omega arith in
    let f : j % 8 ≡ (j - 8) % 8 = omega arith in rw (e, f)
