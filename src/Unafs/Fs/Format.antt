-- ===== src/Unafs/Fs/Format.antt =====
-- `format` and `mount`.
pub mod Layout
pub mod Steps
pub mod Formatted
use una_os.Prelude.{ℕ, zero, suc, ◌+◌, ◌*◌, ◌/◌, ◌%◌, ◌^◌, ◌==◌, if◌then◌else◌}
use una_os.Prelude.Exec.{
  Exec, raised, Result, ok, err, ◌>>=◌, ◌>>◌, pure, modify, gets, lift, map_err,
}
use una_os.Unafs.Storage.{BlockDevice, block_size}
use una_os.Unafs.Bitmap
use una_os.Unafs.Bitmap.{SpaceMap}
use una_os.Unafs.Inode
use una_os.Unafs.Inode.{directory, system}
use una_os.Unafs.Superblock.{Superblock, new as new_superblock, from_bytes as superblock_from_bytes}
use una_os.Unafs.Wal
use una_os.Unafs.Fs.{FileSystemError, storage, superblock, journal, UnaFs, Codecs, Fs}
use una_os.Unafs.Fs.{on_journal, allocate_inode_block, write_inode, sync_metadata}

-- `for i in 0..count { bitmap.mark_used(start + i) }`
pub mark_range : ℕ → ℕ → SpaceMap → SpaceMap
mark_range start zero m = m
mark_range start (suc count) m = mark_range (start + 1) count (Bitmap.mark_used start m)

-- The blocks of the superblock, of the journal and of the bitmap are in use.
pub system_map : Superblock → SpaceMap
unfolding mark_range
system_map sb =
    mark_range sb.bitmap_start sb.bitmap_blocks (
      mark_range sb.journal_start sb.journal_blocks
        (Bitmap.mark_used 0 (Bitmap.new sb.block_count)))

module _ {D : Type 0} ⦃dev : BlockDevice D⦄ (c : Codecs) where
  -- The locals of `format` when the disk is first written.
  pub blank : D → ℕ → UnaFs D
  blank device size_mb =
      let from_size = size_mb * 1024 * 1024 % 2 ^ 64 / block_size in
      let count = dev.block_count device in
      let sb = new_superblock (if count == 0 then from_size else count) in
      record { device = device; superblock = sb; bitmap = system_map sb; journal = Wal.new }

  pub format_steps : Fs D (Unit {0})
  format_steps = do
    on_journal Wal.reset
    root_id ← allocate_inode_block
    modify (λ s. record s { superblock = record s.superblock { root_inode = root_id } })
    write_inode c (Inode.new root_id directory)
    catalog_id ← allocate_inode_block
    modify (λ s. record s { superblock = record s.superblock { catalog_inode = catalog_id } })
    write_inode c (Inode.new catalog_id system)
    sync_metadata c

  pub format : D → ℕ → Result FileSystemError (UnaFs D)
  format device size_mb =
      let r = format_steps (blank device size_mb) in elim r.0 [ ok _ ↦ ok r.1 | err e ↦ err e ]

  -- The reads of `mount`. A dirty journal is reported to the console and mounted all the same.
  mount_steps : Exec FileSystemError D (UnaFs D)
  mount_steps = do
    block ← raised storage (dev.read_block 0 block_size)
    sb ← lift (map_err superblock (superblock_from_bytes c.superblock block))
    map ← raised storage (Bitmap.load sb.bitmap_start sb.bitmap_blocks)
    dirty ← raised journal (Wal.check_recovery c.journal_op)
    device ← gets (λ d. d)
    pure (record { device = device; superblock = sb; bitmap = map; journal = Wal.new })

  unfoldable mount : D → Result FileSystemError (UnaFs D)
  unfolding mount_steps
  mount device = (mount_steps device).0
