-- ===== src/Unafs/Fs.antt =====
-- libs/unafs/src/fs.rs: the state of a mounted file system, and the operations on its inodes.
pub mod Mounted
pub mod Inodes
pub mod Format
pub mod Data
pub mod Dirs
pub mod Attributes
pub mod Search
use una_os.Prelude.{ℕ, ◌-◌, List, [], ◌∷◌, Option, none, some, ltb, if◌then◌else◌}
use una_os.Prelude.Text.{Text}
use una_os.Prelude.Map.{Map}
use una_os.Prelude.Exec.{Result, ok, err, Exec, ◌>>=◌, ◌>>◌, pure, fail, gets, lift, map_err}
use una_os.Unafs.Storage.{StorageError, BlockDevice, block_size, padded}
use una_os.Unafs.Bitmap
use una_os.Unafs.Bitmap.{SpaceMap}
use una_os.Unafs.Codec.{Codec}
use una_os.Unafs.Inode
use una_os.Unafs.Inode.{Inode, InodeError, FileKind, file, AttributeValue}
use una_os.Unafs.Superblock.{Superblock, SuperblockError, to_bytes as superblock_bytes}
use una_os.Unafs.Catalog.{CatalogEntry}
use una_os.Unafs.Query.{QueryError}
use una_os.Unafs.Wal
use una_os.Unafs.Wal.{Journal, JournalOp, JournalError, begin_create, end_create}

pub data FileSystemError : Type 0 where
  storage : StorageError → FileSystemError
  superblock : SuperblockError → FileSystemError
  inode : InodeError → FileSystemError
  serialization : FileSystemError
  no_space : FileSystemError
  root_missing : FileSystemError
  not_a_directory : FileSystemError
  file_exists : FileSystemError
  attribute_too_large : FileSystemError
  journal : JournalError → FileSystemError
  invalid_attribute_data : FileSystemError
  query : QueryError → FileSystemError

pub record DirEntry : Type 0 where
  pub name : Text
  pub inode_id : ℕ
  pub kind : FileKind

pub record UnaFs (D : Type 0) : Type 0 where
  pub device : D
  pub superblock : Superblock
  pub bitmap : SpaceMap
  pub journal : Journal

-- The serialiser of each stored type.
pub record Codecs : Type 0 where
  pub superblock : Codec Superblock
  pub inode : Codec Inode
  pub journal_op : Codec JournalOp
  pub entries : Codec (List DirEntry)
  pub catalog : Codec (List CatalogEntry)
  pub attribute : Codec AttributeValue

-- "unknown"
abbrev pub unknown : Text
unknown = 0x75 ∷ 0x6e ∷ 0x6b ∷ 0x6e ∷ 0x6f ∷ 0x77 ∷ 0x6e ∷ []

abbrev pub Fs : Type 0 → Type 0 → Type 0
Fs D A = Exec FileSystemError (UnaFs D) A

-- `if self.superblock.free_blocks > 0 { self.superblock.free_blocks -= 1; }`
abbrev pub take_free : Superblock → Superblock
take_free sb = if ltb 0 sb.free_blocks then record sb { free_blocks = sb.free_blocks - 1 } else sb

module _ {D : Type 0} where
  abbrev pub on_device : {A : Type 0} → Exec StorageError D A → Fs D A
  on_device m s = (map_err storage (m s.device).0, record s { device = (m s.device).1 })

  abbrev pub on_journal : {A : Type 0} → Exec JournalError (Journal × D) A → Fs D A
  on_journal m s = (
    map_err journal (m (s.journal, s.device)).0,
    record s { journal = (m (s.journal, s.device)).1.0; device = (m (s.journal, s.device)).1.1 },
  )

  pub allocate_inode_block : Fs D ℕ
  allocate_inode_block s = elim (Bitmap.allocate s.bitmap).0 [
    | none ↦ (err no_space, record s { bitmap = (Bitmap.allocate s.bitmap).1 })
    | some id ↦ (
      ok id,
      record s { superblock = take_free s.superblock; bitmap = (Bitmap.allocate s.bitmap).1 },
    )
  ]

module _ {D : Type 0} ⦃dev : BlockDevice D⦄ (c : Codecs) where
  unfoldable pub read_inode : ℕ → Fs D Inode
  read_inode id = do
    block ← on_device (dev.read_block id block_size)
    lift (map_err inode (Inode.from_bytes c.inode block))

  pub write_inode : Inode → Fs D (Unit {0})
  write_inode node = do
    bytes ← lift (map_err inode (Inode.to_bytes c.inode node))
    on_device (dev.write_block node.id (padded bytes))

  pub sync_metadata : Fs D (Unit {0})
  sync_metadata = do
    map ← gets (λ s. s.bitmap)
    sb ← gets (λ s. s.superblock)
    on_device (Bitmap.save sb.bitmap_start map)
    bytes ← lift (map_err superblock (superblock_bytes c.superblock sb))
    on_device (dev.write_block 0 (padded bytes))

  pub create_inode_internal : FileKind → Map AttributeValue → Fs D ℕ
  unfolding allocate_inode_block write_inode sync_metadata
  create_inode_internal kind attributes = do
    inode_id ← allocate_inode_block
    on_journal (Wal.log c.journal_op (begin_create 0 unknown))
    write_inode (record (Inode.new inode_id kind) { attributes = attributes })
    sync_metadata
    on_journal (Wal.log c.journal_op (end_create inode_id))
    pure inode_id

  unfoldable create_inode : Map AttributeValue → Fs D ℕ
  unfolding create_inode_internal
  create_inode attributes = create_inode_internal file attributes
