-- ===== src/Unafs/Tests/Systems.antt =====
-- The theorems about formatting, inodes and large attributes on a disk of sixteen blocks.
use una_os.Prelude.{
  ℕ, zero, suc, ◌<◌, ◌≡◌, ◌≢◌, ◌⊎◌, refl, arith, List, [], ◌∷◌, ◌++◌, Option, none, some,
}
use una_os.Prelude.Map.{Map}
use una_os.Prelude.Exec.{ok, err}
use una_os.Unafs.Storage.Mem.{MemDevice, mem_device}
use una_os.Unafs.Storage.Mem.Contract.{HasBlocks, block, mem_device-IsDisk}
use una_os.Unafs.Codec.{Codec, IsRoundTrip, DoesNotFit}
use una_os.Unafs.Inode
use una_os.Unafs.Inode.{
  Inode, InodeError, FileKind, ExtentList, AttributeValue, file, directory, symlink, system,
}
use una_os.Unafs.Superblock.{SuperblockError}
use una_os.Unafs.Fs.{
  UnaFs, Codecs, FileSystemError, no_space, superblock, inode, read_inode, write_inode,
}
use una_os.Unafs.Fs.{allocate_inode_block}
use una_os.Unafs.Fs.Mounted.{Allocated}
use una_os.Unafs.Fs.Format.Steps.{IsFilled, allocate-IsFilled}
use una_os.Unafs.Fs.Data.{read_from_extents}
use una_os.Unafs.Fs.Mounted.{IsMounted, IsFull, Kept}
use una_os.Unafs.Fs.Inodes.{read_inode-write_inode}
use una_os.Unafs.Fs.Attributes.{allocate_and_write_extents, total_length}
use una_os.Unafs.Fs.Attributes.RoundTrip.{read-allocate_and_write_extents}
use una_os.Unafs.Fs.Format.{format}
use una_os.Unafs.Fs.Format.Layout.{fresh, fresh-IsMounted}
use una_os.Unafs.Fs.Format.Formatted.{IsFormatted, IsRefusal, format-IsFormatted}
use una_os.Unafs.Tests.Fixtures.{zeros, zero_disk, zero_disk-HasBlocks, op_codec, superblock_codec}

-- A tag for the kind and the number: an inode with content is refused.
unfoldable encode :
    ℕ → FileKind → ℕ → ExtentList → Map AttributeValue → Map ExtentList → Option (List ℕ)
encode id file zero [] [] [] = some (0 ∷ id ∷ [])
encode id directory zero [] [] [] = some (1 ∷ id ∷ [])
encode id system zero [] [] [] = some (2 ∷ id ∷ [])
encode _ _ _ _ _ _ = none

unfoldable decode : List ℕ → Option Inode
unfolding Inode.new
decode (zero ∷ id ∷ rest) = some (Inode.new id file)
decode (suc zero ∷ id ∷ rest) = some (Inode.new id directory)
decode (suc (suc zero) ∷ id ∷ rest) = some (Inode.new id system)
decode _ = none

abbrev inode_codec : Codec Inode
inode_codec = record {
  serialize =
      λ node. encode node.id node.kind node.size node.chunks node.attributes node.large_attributes;
  deserialize = decode;
}

decode-encode :
    (id : ℕ) (kind : FileKind) (n : ℕ) (chunks : ExtentList) (small : Map AttributeValue)
    (large : Map ExtentList) (bytes rest : List ℕ)
    → encode id kind n chunks small large ≡ some bytes
    → decode (bytes ++ rest)
      ≡ some (record {
        id = id;
        kind = kind;
        size = n;
        chunks = chunks;
        attributes = small;
        large_attributes = large;
      })
unfolding encode decode Inode.new
decode-encode id file zero [] [] [] bytes rest e = let f : bytes ≡ 0 ∷ id ∷ [] = cc e in rw f
decode-encode id directory zero [] [] [] bytes rest e = let f : bytes ≡ 1 ∷ id ∷ [] = cc e in rw f
decode-encode id system zero [] [] [] bytes rest e = let f : bytes ≡ 2 ∷ id ∷ [] = cc e in rw f
decode-encode _ _ _ _ _ _ bytes rest e = absurd (cc e)

inode_codec-IsRoundTrip : IsRoundTrip inode_codec
inode_codec-IsRoundTrip = record {
  reads_back = λ node bytes rest e.
      decode-encode node.id node.kind node.size node.chunks node.attributes node.large_attributes
        bytes rest e;
}

no_codec : {A : Type 0} → Codec A
no_codec = record { serialize = λ a. none; deserialize = λ bytes. none }

abbrev codecs : Codecs
codecs = record {
  superblock = superblock_codec;
  inode = inode_codec;
  journal_op = op_codec;
  entries = no_codec;
  catalog = no_codec;
  attribute = no_codec;
}

zero_disk-good : HasBlocks 16 (zero_disk 16)
zero_disk-good = zero_disk-HasBlocks 16 (omega arith)

abbrev new_system : UnaFs MemDevice
new_system = fresh 16 (zero_disk 16)

new_system-IsFilled : IsFilled 16 (HasBlocks 16) block (mem_device-IsDisk 16) new_system 12
new_system-IsFilled =
    let f =
      fresh-IsMounted 16 (HasBlocks 16) block (mem_device-IsDisk 16) codecs (zero_disk 16) 0
        zero_disk-good (omega arith) in
    record { mounted = f.0; marks = f.2; count = f.3 }

new_system-IsMounted : IsMounted 16 (HasBlocks 16) block (mem_device-IsDisk 16) new_system
new_system-IsMounted =
    (fresh-IsMounted 16 (HasBlocks 16) block (mem_device-IsDisk 16) codecs (zero_disk 16) 0
      zero_disk-good (omega arith)).0

-- Five thousand bytes take two of the four free blocks.
read-allocate_and_write_extents_example :
    ((s' : UnaFs MemDevice) × (((allocate_and_write_extents codecs (zeros 5000) new_system
            ≡ (err no_space, s'))
          × IsFull s'.bitmap)
        ⊎ ((e : SuperblockError) × (allocate_and_write_extents codecs (zeros 5000) new_system
              ≡ (err (superblock e), s'))
            × DoesNotFit (codecs.superblock.serialize s'.superblock))))
    ⊎ ((extents : ExtentList) × (s' : UnaFs MemDevice) × (allocate_and_write_extents codecs
            (zeros 5000)
            new_system
          ≡ (ok extents, s'))
        × (read_from_extents codecs extents 0 (total_length extents) (total_length extents) s'
            ≡ (ok (zeros 5000), s'))
        × Kept 16 (HasBlocks 16) block (mem_device-IsDisk 16) new_system s')
read-allocate_and_write_extents_example =
    read-allocate_and_write_extents 16 (HasBlocks 16) block (mem_device-IsDisk 16) codecs
      (zeros 5000) new_system new_system-IsMounted

new_file-id : (Inode.new 13 file).id ≡ 13
unfolding Inode.new
new_file-id = refl

read_inode-write_inode_example :
    ((e : InodeError) × (write_inode codecs (Inode.new 13 file) new_system
        ≡ (err (inode e), new_system))
      × DoesNotFit (codecs.inode.serialize (Inode.new 13 file)))
    ⊎ ((s' : UnaFs MemDevice) × (write_inode codecs (Inode.new 13 file) new_system ≡ (ok tt, s'))
        × (read_inode codecs (Inode.new 13 file).id s' ≡ (ok (Inode.new 13 file), s'))
        × ((j : ℕ)
            → j < 16
            → (Inode.new 13 file).id ≢ j
            → block s'.device j ≡ block new_system.device j))
read_inode-write_inode_example =
    read_inode-write_inode 16 (HasBlocks 16) block (mem_device-IsDisk 16) codecs
      inode_codec-IsRoundTrip (Inode.new 13 file) new_system new_system-IsMounted
      (omega (arith, new_file-id))

format-IsFormatted_example :
    ((e : FileSystemError) × (format codecs (zero_disk 16) 1 ≡ err e)
      × IsRefusal 16 (HasBlocks 16) block (mem_device-IsDisk 16) codecs e)
    ⊎ ((s : UnaFs MemDevice) × (format codecs (zero_disk 16) 1 ≡ ok s)
        × IsFormatted 16 (HasBlocks 16) block (mem_device-IsDisk 16) codecs s)
format-IsFormatted_example =
    format-IsFormatted 16 (HasBlocks 16) block (mem_device-IsDisk 16) codecs (zero_disk 16) 1
      inode_codec-IsRoundTrip zero_disk-good (omega arith)

-- A file with its first block in block 12, the first free one; block 13 is next.
abbrev first_taken :
    (s : UnaFs MemDevice) × (allocate_inode_block new_system ≡ (ok 12, s))
    × IsFilled 16 (HasBlocks 16) block (mem_device-IsDisk 16) s 13
    × Allocated 16 (HasBlocks 16) block (mem_device-IsDisk 16) new_system 12 s
first_taken =
    allocate-IsFilled 16 (HasBlocks 16) block (mem_device-IsDisk 16) new_system 12
      new_system-IsFilled (omega arith)

abbrev second_taken :
    (s : UnaFs MemDevice) × (allocate_inode_block first_taken.0 ≡ (ok 13, s))
    × IsFilled 16 (HasBlocks 16) block (mem_device-IsDisk 16) s 14
    × Allocated 16 (HasBlocks 16) block (mem_device-IsDisk 16) first_taken.0 13 s
second_taken =
    allocate-IsFilled 16 (HasBlocks 16) block (mem_device-IsDisk 16) first_taken.0 13 first_taken.2
      (omega arith)

abbrev one_block : ExtentList
one_block = record { logical_offset = 0; physical_block = 12; length = 4096 } ∷ []
