-- ===== src/Unafs/Superblock/Layout.antt =====
-- The regions that a new superblock lays out, and reading a superblock back.
use una_os.Prelude.{
  ℕ, ◌+◌, ◌-◌, ◌*◌, ◌≤◌, ◌<◌, List, ◌≡◌, refl, arith, some, length, ◌↔◌, replicate,
}
use una_os.Prelude.{◌∙◌, ap, length-replicate, true, Option-cases, inl, inr}
use una_os.Prelude.Exec.{ok}
use una_os.Prelude.Text.{text_eq, text_eq→eq, text_eq_refl}
use una_os.Unafs.Storage.{block_size, padded, padded_lem}
use una_os.Unafs.Bitmap
use una_os.Unafs.Bitmap.{div_ceil}
use una_os.Unafs.Codec.{Codec, IsRoundTrip}
use una_os.Unafs.Wal
use una_os.Unafs.Superblock.{Superblock, magic, version, new, to_bytes, from_bytes}

-- What `from_bytes` demands of a superblock.
pub record IsSupported (sb : Superblock) : Type 0 where
  pub magic : sb.magic ≡ magic
  pub version : sb.version ≡ version
  pub block_size : sb.block_size ≡ block_size

-- The regions of a disk of `n` blocks: block 0, the blocks that the journal writes, the
-- bitmap, then the free blocks. The
-- bitmap region has a bit for each block and is as long as the chunks of a new bitmap, no block of it
-- is without use, and what is not a region is counted free.
pub record IsLaidOut (n : ℕ) (sb : Superblock) : Type 0 where
  pub count : sb.block_count ≡ n
  pub journal : sb.journal_start ≡ Wal.journal_start
  pub log : sb.journal_blocks ≡ Wal.journal_blocks
  pub bitmap : sb.bitmap_start ≡ sb.journal_start + sb.journal_blocks
  pub saved : sb.bitmap_blocks ≡ div_ceil (length (Bitmap.new n).bits) block_size
  pub covered : n ≤ sb.bitmap_blocks * block_size * 8
  pub tight : 0 < n → (sb.bitmap_blocks - 1) * block_size * 8 < n
  pub free :
      sb.bitmap_start + sb.bitmap_blocks ≤ n
      → sb.bitmap_start + sb.bitmap_blocks + sb.free_blocks ≡ n
  pub full : n < sb.bitmap_start + sb.bitmap_blocks → sb.free_blocks ≡ 0

pub new-IsSupported : (n : ℕ) → IsSupported (new n)
unfolding new
new-IsSupported n = record { magic = refl; version = refl; block_size = refl }

new_regions : (n : ℕ) → IsLaidOut n (new n)
unfolding new Bitmap.new
new_regions n = record {
  count = refl;
  journal = refl;
  log = refl;
  bitmap = refl;
  saved = omega (arith, length-replicate {A = ℕ} (div_ceil n 8) 0);
  covered = omega arith;
  tight = λ h. omega arith;
  free = λ h. omega arith;
  full = λ h. omega arith;
}

-- `from_bytes` accepts exactly the superblocks that decode and have the magic, the version and the
-- block size of this file system.
pub from_bytes-eq_ok :
    (codec : Codec Superblock) (bytes : List ℕ) (sb : Superblock)
    → (from_bytes codec bytes ≡ ok sb) ↔ ((codec.deserialize bytes ≡ some sb) × IsSupported sb)
unfolding from_bytes
from_bytes-eq_ok codec bytes sb = (
  λ e. elim (Option-cases (codec.deserialize bytes)) [
    | inl bad ↦ absurd (ground arith)
    | inr (got, read) ↦
        let m : got.magic ≡ magic = ground (arith, text_eq→eq got.magic magic) in
        let same : got ≡ sb = ground arith in
        rw (← same) (read, record { magic = m; version = ground arith; block_size = ground arith })
  ],
  λ h.
      let m : text_eq sb.magic magic ≡ true = rw h.1.magic (text_eq_refl magic) in
      rw (h.0, m, from_bytes) (ground (arith, h.1.version, h.1.block_size)),
)

-- `Superblock::new` lays out every disk so, and `from_bytes` accepts the bytes that decode to its
-- superblock.
pub new-IsLaidOut :
    (n : ℕ) (codec : Codec Superblock) (bytes : List ℕ)
    → codec.deserialize bytes ≡ some (new n)
    → IsLaidOut n (new n) × (from_bytes codec bytes ≡ ok (new n))
new-IsLaidOut n codec bytes e =
    (new_regions n, (from_bytes-eq_ok codec bytes (new n)).1 (e, new-IsSupported n))

-- A superblock of this file system that fits a block is read back from the block it is written to.
pub from_bytes-to_bytes :
    (codec : Codec Superblock)
    → IsRoundTrip codec
    → (sb : Superblock) (bytes : List ℕ) → IsSupported sb
    → to_bytes codec sb ≡ ok bytes
    → (from_bytes codec (padded bytes) ≡ ok sb) × (length bytes ≤ block_size)
unfolding to_bytes
from_bytes-to_bytes codec trip sb bytes supported e = elim (Option-cases (codec.serialize sb)) [
  | inl bad ↦ absurd (ground arith)
  | inr (written, w) ↦
      let same : written ≡ bytes = ground arith in
      (
        (from_bytes-eq_ok codec (padded bytes) sb).1 (
          rw (padded_lem bytes) (
              trip.reads_back sb bytes (replicate (block_size - length bytes) 0)
                (w ∙ ap some same)),
          supported,
        ),
        ground arith,
      )
]
