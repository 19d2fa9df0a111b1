-- ===== src/Unafs/Superblock.antt =====
-- libs/unafs/src/superblock.rs: the layout of the disk, in block 0.
pub mod Layout
use una_os.Prelude.{ℕ, ◌+◌, ◌-◌, List, [], ◌∷◌, Option, none, some, ltb, ◌==◌, length, not}
use una_os.Prelude.{if◌then◌else◌, Bool}
use una_os.Prelude.Exec.{Result, ok, err}
use una_os.Prelude.Text.{text_eq}
use una_os.Unafs.Storage.{block_size, StorageError}
use una_os.Unafs.Bitmap.{div_ceil}
use una_os.Unafs.Codec.{Codec}

-- b"UNAFS"
abbrev pub magic : List ℕ
magic = 0x55 ∷ 0x4e ∷ 0x41 ∷ 0x46 ∷ 0x53 ∷ []

abbrev pub version : ℕ
version = 2

pub data SuperblockError : Type 0 where
  invalid_magic : SuperblockError
  invalid_version : ℕ → SuperblockError
  block_size_mismatch : ℕ → ℕ → SuperblockError
  serialization : SuperblockError
  storage : StorageError → SuperblockError
  too_large : ℕ → SuperblockError

pub record Superblock : Type 0 where
  pub magic : List ℕ
  pub version : ℕ
  pub block_size : ℕ
  pub block_count : ℕ
  pub root_inode : ℕ
  pub free_blocks : ℕ
  pub bitmap_start : ℕ
  pub bitmap_blocks : ℕ
  pub journal_start : ℕ
  pub journal_blocks : ℕ
  pub catalog_inode : ℕ

-- `saturating_sub` is the subtraction of ℕ.
unfoldable pub new : ℕ → Superblock
new block_count =
    let bitmap_blocks = div_ceil (div_ceil block_count 8) block_size in
    let journal_start : ℕ = 1 in
    let journal_blocks : ℕ = 10 in
    record {
      magic = magic;
      version = version;
      block_size = block_size;
      block_count = block_count;
      root_inode = 0;
      free_blocks = block_count - (1 + journal_blocks + bitmap_blocks);
      bitmap_start = journal_start + journal_blocks;
      bitmap_blocks = bitmap_blocks;
      journal_start = journal_start;
      journal_blocks = journal_blocks;
      catalog_inode = 0;
    }

unfoldable pub to_bytes : Codec Superblock → Superblock → Result SuperblockError (List ℕ)
to_bytes codec sb = elim (codec.serialize sb) [
  | none ↦ err serialization
  | some bytes ↦ if ltb block_size (length bytes) then err (too_large (length bytes)) else ok bytes
]

pub from_bytes : Codec Superblock → List ℕ → Result SuperblockError Superblock
from_bytes codec bytes = elim (codec.deserialize bytes) [
  | none ↦ err serialization
  | some sb ↦
      if not (text_eq sb.magic magic)
      then err invalid_magic
      else if not (sb.version == version)
      then err (invalid_version sb.version)
      else if not (sb.block_size == block_size)
      then err (block_size_mismatch block_size sb.block_size)
      else ok sb
]
