-- ===== src/Unafs/Inode.antt =====
-- libs/unafs/src/inode.rs: inodes, extents and attribute values.
use una_os.Prelude.{ℕ, List, [], none, some, ltb, length, if◌then◌else◌}
use una_os.Prelude.Exec.{Result, ok, err}
use una_os.Prelude.Text.{Text}
use una_os.Prelude.Map.{Map}
use una_os.Unafs.Storage.{block_size}
use una_os.Unafs.Codec.{Codec}

pub data InodeError : Type 0 where
  inode_too_large : ℕ → ℕ → InodeError
  serialization : InodeError

pub data FileKind : Type 0 where
  file directory symlink system : FileKind

pub record Extent : Type 0 where
  pub logical_offset : ℕ
  pub physical_block : ℕ
  pub length : ℕ

abbrev pub ExtentList : Type 0
ExtentList = List Extent

-- An `i64` or a float is its bit pattern.
pub data AttributeValue : Type 0 where
  int : ℕ → AttributeValue
  float : ℕ → AttributeValue
  string : Text → AttributeValue
  blob : List ℕ → AttributeValue
  vector : List ℕ → AttributeValue

pub record Inode : Type 0 where
  pub id : ℕ
  pub kind : FileKind
  pub size : ℕ
  pub chunks : ExtentList
  pub attributes : Map AttributeValue
  pub large_attributes : Map ExtentList

unfoldable pub new : ℕ → FileKind → Inode
new id kind = record {
  id = id;
  kind = kind;
  size = 0;
  chunks = [];
  attributes = [];
  large_attributes = [];
}

-- `bytes.len() as u64 > BLOCK_SIZE`
unfoldable pub to_bytes : Codec Inode → Inode → Result InodeError (List ℕ)
to_bytes codec inode = elim (codec.serialize inode) [
  | none ↦ err serialization
  | some bytes ↦
      if ltb block_size (length bytes)
      then err (inode_too_large (length bytes) block_size)
      else ok bytes
]

unfoldable pub from_bytes : Codec Inode → List ℕ → Result InodeError Inode
from_bytes codec bytes = elim (codec.deserialize bytes) [
  | none ↦ err serialization
  | some inode ↦ ok inode
]
