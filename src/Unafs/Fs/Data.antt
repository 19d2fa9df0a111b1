-- ===== src/Unafs/Fs/Data.antt =====
-- Reading and writing the data of an inode.
pub mod Extents
pub mod Read
pub mod Gap
use una_os.Prelude.{
  ℕ, zero, suc, ◌+◌, ◌-◌, ◌*◌, ◌/◌, ◌%◌, min, List, [], ◌∷◌, ◌++◌, Option, none, some,
}
use una_os.Prelude.{
  Bool, true, false, ◌&&◌, ltb, leb, ◌==◌, if◌then◌else◌, length, take, drop, slice, splice,
}
use una_os.Prelude.Exec.{Result, ok, err, ◌>>=◌, ◌>>◌, pure}
use una_os.Unafs.Storage.{BlockDevice, block_size}
use una_os.Unafs.Bitmap.{div_ceil}
use una_os.Unafs.Inode.{Inode, Extent, ExtentList}
use una_os.Unafs.Wal
use una_os.Unafs.Wal.{begin_write, end_write}
use una_os.Unafs.Fs.{UnaFs, Codecs, Fs, on_device, on_journal, allocate_inode_block}
use una_os.Unafs.Fs.{read_inode, write_inode, sync_metadata}

-- The block of the first extent that covers `offset`.
unfoldable pub find_block : ExtentList → ℕ → Option ℕ
find_block [] offset = none
find_block (e ∷ es) offset =
    let rest = find_block es offset in
    if leb e.logical_offset offset && ltb offset (e.logical_offset + e.length)
    then some (e.physical_block + (offset - e.logical_offset) / block_size)
    else rest

-- Whether a new block is taken into the last extent.
unfoldable pub merges : Extent → ℕ → ℕ → Bool
merges last offset new_block =
    leb (last.logical_offset + last.length) offset
    && last.length % block_size == 0
    && last.physical_block + div_ceil last.length block_size - 1 + 1 == new_block

abbrev pub new_extent : ℕ → ℕ → Extent
new_extent offset new_block = record {
  logical_offset = offset / block_size * block_size;
  physical_block = new_block;
  length = block_size;
}

-- The extents after `new_block` was allocated for `offset`.
pub add_block : ExtentList → ℕ → ℕ → ExtentList
unfolding merges
add_block [] offset new_block = new_extent offset new_block ∷ []
add_block (e ∷ []) offset new_block =
    if merges e offset new_block
    then record e { length = e.length + block_size } ∷ []
    else e ∷ new_extent offset new_block ∷ []
add_block (e ∷ e' ∷ es) offset new_block = e ∷ add_block (e' ∷ es) offset new_block

module _ {D : Type 0} ⦃dev : BlockDevice D⦄ (c : Codecs) where
  -- The block of `offset`, which is allocated where no extent covers it.
  unfoldable pub block_for : ExtentList → ℕ → Fs D (ℕ × ExtentList)
  block_for chunks offset = elim (find_block chunks offset) [
    | some id ↦ pure (id, chunks)
    | none ↦ do
      new_block ← allocate_inode_block
      pure (new_block, add_block chunks offset new_block)
  ]

  -- Bytes are copied into a block that is read first.
  unfoldable pub patch_block : ℕ → ℕ → List ℕ → Fs D (Unit {0})
  patch_block id at bytes = do
    old ← on_device (dev.read_block id block_size)
    on_device (dev.write_block id (splice old at bytes))

  -- The loop of `write_data`, over the bytes that are still to be written: the extents at the end.
  unfoldable pub write_loop : ℕ → ExtentList → ℕ → List ℕ → Fs D ExtentList
  write_loop fuel chunks offset [] = pure chunks
  write_loop zero chunks offset (b ∷ bytes) = pure chunks
  write_loop (suc fuel) chunks offset (b ∷ bytes) = do
    let at = offset % block_size
    let to_write = min (block_size - at) (length (b ∷ bytes))
    (id, chunks') ← block_for chunks offset
    patch_block id at (take to_write (b ∷ bytes))
    write_loop fuel chunks' (offset + to_write) (drop to_write (b ∷ bytes))

  -- Each round writes a byte at least, so the number of bytes is fuel enough.
  unfoldable pub write_data : ℕ → ℕ → List ℕ → Fs D (Unit {0})
  unfolding write_loop block_for patch_block
  write_data inode_id offset [] = pure tt
  write_data inode_id offset (b ∷ bytes) = do
    on_journal (Wal.log c.journal_op (begin_write inode_id))
    node ← read_inode c inode_id
    chunks ← write_loop (length (b ∷ bytes)) node.chunks offset (b ∷ bytes)
    let end = offset + length (b ∷ bytes)
    write_inode c
        (record node { size = if ltb node.size end then end else node.size; chunks = chunks })
    sync_metadata c
    on_journal (Wal.log c.journal_op (end_write inode_id))

  -- The loop of `read_from_extents`: `left` bytes from `offset` on. A byte that no extent covers
  -- reads as 0.
  unfoldable pub read_loop : ℕ → ExtentList → ℕ → ℕ → Fs D (List ℕ)
  read_loop fuel chunks offset zero = pure []
  read_loop zero chunks offset (suc left) = pure []
  read_loop (suc fuel) chunks offset (suc left) = elim (find_block chunks offset) [
    | none ↦ do rest ← read_loop fuel chunks (offset + 1) left; pure (0 ∷ rest)
    | some id ↦ do
      let at = offset % block_size
      let to_read = min (block_size - at) (suc left)
      block ← on_device (dev.read_block id block_size)
      rest ← read_loop fuel chunks (offset + to_read) (suc left - to_read)
      pure (slice block at to_read ++ rest)
  ]

  unfoldable pub read_from_extents : ExtentList → ℕ → ℕ → ℕ → Fs D (List ℕ)
  unfolding read_loop
  read_from_extents chunks offset len total_size =
      let to_read = min len (total_size - offset) in read_loop to_read chunks offset to_read

  unfoldable pub read_data : ℕ → ℕ → ℕ → Fs D (List ℕ)
  unfolding read_from_extents
  read_data inode_id offset len = do
    node ← read_inode c inode_id
    read_from_extents node.chunks offset len node.size
