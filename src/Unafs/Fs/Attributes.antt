-- ===== src/Unafs/Fs/Attributes.antt =====
-- Attributes: small ones in the inode, large ones in extents of their own, all in the catalog.
pub mod Stored
pub mod RoundTrip
use una_os.Prelude.{ℕ, zero, suc, ◌+◌, List, [], ◌∷◌, ◌++◌, Option, none, some, Bool, false}
use una_os.Prelude.{ltb, ◌==◌, min, if◌then◌else◌, length, take, drop}
use una_os.Prelude.Text.{Text}
use una_os.Prelude.Map
use una_os.Prelude.Exec.{◌>>=◌, ◌>>◌, pure, gets, modify}
use una_os.Unafs.Storage.{BlockDevice, block_size, padded}
use una_os.Unafs.Bitmap
use una_os.Unafs.Bitmap.{div_ceil}
use una_os.Unafs.Inode.{Inode, ExtentList, AttributeValue, string, blob, vector}
use una_os.Unafs.Superblock.{Superblock}
use una_os.Unafs.Catalog
use una_os.Unafs.Wal
use una_os.Unafs.Wal.{begin_op, end_op}
use una_os.Unafs.Fs.{serialization, invalid_attribute_data, UnaFs, Codecs, Fs}
use una_os.Unafs.Fs.{on_device, on_journal, allocate_inode_block, read_inode, write_inode}
use una_os.Unafs.Fs.{sync_metadata}
use una_os.Unafs.Fs.Data.{read_data, write_data, read_from_extents}
use una_os.Unafs.Fs.Dirs.{or_error}

-- "SetAttr: {key}"
abbrev set_attr : Text
set_attr = 0x53 ∷ 0x65 ∷ 0x74 ∷ 0x41 ∷ 0x74 ∷ 0x74 ∷ 0x72 ∷ 0x3a ∷ 0x20 ∷ []

-- A value that does not fit the inode.
is_large : AttributeValue → Bool
is_large (vector v) = ltb 64 (length v)
is_large (blob b) = ltb 256 (length b)
is_large (string s) = ltb 256 (length s)
is_large _ = false

-- `if self.superblock.free_blocks < self.superblock.block_count { self.superblock.free_blocks += 1 }`
abbrev pub give_free : Superblock → Superblock
give_free sb =
    if ltb sb.free_blocks sb.block_count then record sb { free_blocks = sb.free_blocks + 1 } else sb

abbrev pub total_length : ExtentList → ℕ
total_length [] = 0
total_length (e ∷ es) = e.length + total_length es

module _ {D : Type 0} where
  -- `for i in 0..blocks`, from the block `id` on.
  pub free_blocks : ℕ → ℕ → UnaFs D → UnaFs D
  free_blocks id zero s = s
  free_blocks id (suc count) s =
      free_blocks (id + 1) count
        (record s { superblock = give_free s.superblock; bitmap = Bitmap.free id s.bitmap })

  pub free_all : ExtentList → UnaFs D → UnaFs D
  free_all [] s = s
  free_all (e ∷ es) s = free_all es (free_blocks e.physical_block (div_ceil e.length block_size) s)

module _ {D : Type 0} ⦃dev : BlockDevice D⦄ (c : Codecs) where
  free_extents : ExtentList → Fs D (Unit {0})
  unfolding free_all
  free_extents extents = do modify (free_all extents); sync_metadata c

  -- The loop of `allocate_and_write_extents`, over the bytes that are left.
  pub extents_loop : ℕ → ℕ → List ℕ → Fs D ExtentList
  extents_loop fuel logical [] = pure []
  extents_loop zero logical (b ∷ bytes) = pure []
  extents_loop (suc fuel) logical (b ∷ bytes) = do
    block_id ← allocate_inode_block
    let to_write = min block_size (length (b ∷ bytes))
    on_device (dev.write_block block_id (padded (take to_write (b ∷ bytes))))
    rest ← extents_loop fuel (logical + to_write) (drop to_write (b ∷ bytes))
    pure (record { logical_offset = logical; physical_block = block_id; length = to_write } ∷ rest)

  -- Each round writes a byte at least.
  pub allocate_and_write_extents : List ℕ → Fs D ExtentList
  unfolding extents_loop
  allocate_and_write_extents bytes = do
    extents ← extents_loop (length bytes) 0 bytes
    sync_metadata c
    pure extents

  update_catalog : Text → AttributeValue → ℕ → Fs D (Unit {0})
  update_catalog key value inode_id = do
    catalog_id ← gets (λ s. s.superblock.catalog_inode)
    (if catalog_id == 0 then pure tt else (do
      node ← read_inode c catalog_id
      old ← read_data c catalog_id 0 node.size
      entries ← or_error serialization (Catalog.deserialize_catalog c.catalog old)
      bytes ←
          or_error serialization
            (Catalog.serialize_catalog c.catalog (entries ++ (Catalog.new key value inode_id ∷ [])))
      write_data c catalog_id 0 bytes))

  -- The small and the large values of the inode after the new value is stored.
  store_value : Inode → Text → AttributeValue → Fs D Inode
  unfolding is_large allocate_and_write_extents
  store_value node key value =
      if is_large value
      then (do
        bytes ← or_error serialization (c.attribute.serialize value)
        extents ← allocate_and_write_extents bytes
        pure (record node {
          attributes = Map.remove key node.attributes;
          large_attributes = Map.insert key extents node.large_attributes;
        }))
      else pure (record node { attributes = Map.insert key value node.attributes })

  -- `inode.large_attributes.remove(&key)`, and the blocks of what was there.
  drop_large : Inode → Text → Fs D Inode
  unfolding free_extents
  drop_large node key = elim (Map.get key node.large_attributes) [
    | none ↦ pure node
    | some extents ↦ do
      free_extents extents
      pure (record node { large_attributes = Map.remove key node.large_attributes })
  ]

  -- The broadcast at the end, whose result is dropped, goes to the console.
  unfoldable set_attribute : ℕ → Text → AttributeValue → Fs D (Unit {0})
  unfolding store_value drop_large update_catalog
  set_attribute inode_id key value = do
    on_journal (Wal.log c.journal_op (begin_op inode_id (set_attr ++ key)))
    node ← read_inode c inode_id
    node ← drop_large node key
    node ← store_value node key value
    write_inode c node
    update_catalog key value inode_id
    sync_metadata c
    on_journal (Wal.log c.journal_op (end_op inode_id))

  unfoldable get_attribute : ℕ → Text → Fs D (Option AttributeValue)
  get_attribute inode_id key = do
    node ← read_inode c inode_id
    elim (Map.get key node.attributes) [
      | some value ↦ pure (some value)
      | none ↦ elim (Map.get key node.large_attributes) [
        | none ↦ pure none
        | some extents ↦ do
          bytes ← read_from_extents c extents 0 (total_length extents) (total_length extents)
          value ← or_error invalid_attribute_data (c.attribute.deserialize bytes)
          pure (some value)
      ]
    ]
