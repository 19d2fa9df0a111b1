-- ===== src/Unafs/Storage.antt =====
-- libs/unafs/src/storage.rs: the trait `BlockDevice` of block devices.
pub mod Disk
pub mod Mem
use una_os.Prelude.{
  ℕ, ◌-◌, List, [], ◌++◌, replicate, splice, length, length-append, length-replicate,
}
use una_os.Prelude.{splice-replicate, ◌≤◌, ◌≡◌, ◌∙◌, ap, arith}
use una_os.Prelude.Exec.{Exec}

abbrev pub block_size : ℕ
block_size = 4096

-- `Error`; the text of an I/O error is the host's.
pub data StorageError : Type 0 where
  bad_block_size : ℕ → ℕ → StorageError
  io : List ℕ → StorageError
  out_of_bounds : ℕ → StorageError

-- The trait `BlockDevice`. A read names the length of its buffer and returns the bytes read into it.
pub record BlockDevice (D : Type 0) : Type 0 where
  pub read_block : ℕ → ℕ → Exec StorageError D (List ℕ)
  pub write_block : ℕ → List ℕ → Exec StorageError D (Unit {0})
  pub block_count : D → ℕ

-- `let mut block = vec![0u8; BLOCK_SIZE]; block[..n].copy_from_slice(..)`
pub padded : List ℕ → List ℕ
padded front = splice (replicate block_size 0) 0 front

pub padded_lem : (front : List ℕ) → padded front ≡ front ++ replicate (block_size - length front) 0
unfolding padded
padded_lem front = splice-replicate block_size front 0

-- `vec![0u8; BLOCK_SIZE as usize]`
pub zero_block : List ℕ
zero_block = replicate block_size 0

pub length-zero_block : length zero_block ≡ block_size
unfolding zero_block
length-zero_block = length-replicate {A = ℕ} block_size 0

pub padded-nil : padded [] ≡ zero_block
unfolding zero_block
padded-nil = padded_lem []

pub length-padded :
    (front : List ℕ) → length front ≤ block_size → length (padded front) ≡ block_size
length-padded front h =
    ap length (padded_lem front)
    ∙ length-append front (replicate (block_size - length front) 0)
    ∙ omega (arith, length-replicate {A = ℕ} (block_size - length front) 0)
