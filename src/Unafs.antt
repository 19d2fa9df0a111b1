-- ===== src/Unafs.antt =====
-- UnaFS, the file system of libs/unafs.
pub mod Storage
pub mod Bitmap
pub mod Codec
pub mod Hash
pub mod Inode
pub mod Superblock
pub mod Catalog
pub mod Wal
pub mod Query
pub mod Fs
pub mod Tests
