-- ===== src/Unafs/Tests/Files.antt =====
-- The theorems about extents and reads on small files.
use una_os.Prelude.{ℕ, ◌≤◌, ◌≡◌, refl, arith, [], ◌∷◌, none, some, slice, ◌++◌}
use una_os.Prelude.Exec.{ok}
use una_os.Unafs.Storage.{BlockDevice, zero_block, length-zero_block}
use una_os.Unafs.Storage.Mem.{MemDevice, mem_device}
use una_os.Unafs.Codec.{Codec}
use una_os.Unafs.Inode
use una_os.Unafs.Inode.{Inode, Extent, ExtentList, file, from_bytes}
use una_os.Unafs.Superblock
use una_os.Unafs.Bitmap
use una_os.Unafs.Fs.{UnaFs, Codecs, read_inode}
use una_os.Unafs.Fs.Data.{find_block, read_loop, read_from_extents, read_data}
use una_os.Unafs.Fs.Data.Read.{FillsBuffers}
use una_os.Unafs.Tests.Fixtures.{zero_disk, op_codec, superblock_codec}

-- A file of two blocks, at blocks 20 and 21 of the disk.
abbrev two_blocks : ExtentList
two_blocks = record { logical_offset = 0; physical_block = 20; length = 8192 } ∷ []

two_blocks-miss : (offset : ℕ) → 8192 ≤ offset → find_block two_blocks offset ≡ none
unfolding find_block
two_blocks-miss offset h = ground arith

two_blocks-hit : find_block two_blocks 5000 ≡ some 21
unfolding find_block
two_blocks-hit = refl

no_codec : {A : Type 0} → Codec A
no_codec = record { serialize = λ a. none; deserialize = λ bytes. none }

-- Every inode reads as a file of six bytes in block 2.
abbrev six_bytes : Inode
six_bytes = record (Inode.new 1 file) {
  size = 6;
  chunks = record { logical_offset = 0; physical_block = 2; length = 4096 } ∷ [];
}

unfoldable six_bytes_codec : Codec Inode
six_bytes_codec = record { serialize = λ node. none; deserialize = λ bytes. some six_bytes }

abbrev codecs : Codecs
codecs = record {
  superblock = superblock_codec;
  inode = six_bytes_codec;
  journal_op = op_codec;
  entries = no_codec;
  catalog = no_codec;
  attribute = no_codec;
}

abbrev mounted : UnaFs MemDevice
mounted = record {
  device = zero_disk 12;
  superblock = Superblock.new 12;
  bitmap = Bitmap.new 12;
  journal = record { write_offset = 0 };
}

-- A device on which every block is zeros.
record ZeroDisk : Type 0 where
  pub block_count : ℕ

instance abbrev zero_device : BlockDevice ZeroDisk
zero_device = record {
  read_block = λ id len d. (ok zero_block, d);
  write_block = λ id buf d. (ok tt, d);
  block_count = λ d. d.block_count;
}

zero_device-FillsBuffers : FillsBuffers zero_device
zero_device-FillsBuffers = record {
  fills = λ d id b e. let f : b ≡ zero_block = cc e in rw f length-zero_block;
}

abbrev on_zeros : UnaFs ZeroDisk
on_zeros = record {
  device = record { block_count = 12 };
  superblock = Superblock.new 12;
  bitmap = Bitmap.new 12;
  journal = record { write_offset = 0 };
}

read_six_bytes : read_inode codecs 1 on_zeros ≡ (ok six_bytes, on_zeros)
unfolding read_inode from_bytes six_bytes_codec
read_six_bytes = refl

read_two_to_six : read_data codecs 1 2 100 on_zeros ≡ (ok (slice zero_block 2 4 ++ []), on_zeros)
unfolding read_data read_inode from_bytes six_bytes_codec read_from_extents read_loop find_block
read_two_to_six = refl
