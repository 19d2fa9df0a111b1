-- ===== src/Unafs/Storage/Mem.antt =====
-- The RAM disk `MemDevice` of libs/unafs/src/storage.rs.
pub mod Contract
use una_os.Prelude.{ℕ, ◌+◌, ◌-◌, ◌*◌, ◌/◌, ◌%◌, ◌^◌, List, ◌++◌, [], ltb, leb, ◌==◌, if◌then◌else◌}
use una_os.Prelude.{length, replicate, slice, splice, not}
use una_os.Prelude.Exec.{ok, err, Exec}
use una_os.Unafs.Storage.{StorageError, bad_block_size, out_of_bounds, BlockDevice, block_size}

pub record MemDevice : Type 0 where
  pub content : List ℕ

abbrev pub new : MemDevice
new = record { content = [] }

-- `(id * BLOCK_SIZE) as usize`, and the end of the block, on 64-bit words.
abbrev pub start_of : ℕ → ℕ
start_of id = id * block_size % 2 ^ 64

abbrev pub end_of : ℕ → ℕ
end_of id = (start_of id + block_size) % 2 ^ 64

pub read_block : ℕ → ℕ → Exec StorageError MemDevice (List ℕ)
read_block id buf_len d =
    if not (buf_len == block_size)
    then (err (bad_block_size buf_len block_size), d)
    else if leb (length d.content) (start_of id)
    then (err (out_of_bounds id), d)
    else if ltb (length d.content) (end_of id)
    then (err (out_of_bounds id), d)
    else (ok (slice d.content (start_of id) block_size), d)

-- `data.resize(end, 0)` where `end` is past the length.
abbrev pub resize : List ℕ → ℕ → List ℕ
resize content end = content ++ replicate (end - length content) 0

unfoldable pub write_block : ℕ → List ℕ → Exec StorageError MemDevice (Unit {0})
write_block id buf d =
    if not (length buf == block_size)
    then (err (bad_block_size (length buf) block_size), d)
    else (let grown =
          if ltb (length d.content) (end_of id) then resize d.content (end_of id) else d.content in
        (ok tt, record { content = splice grown (start_of id) buf }))

pub block_count : MemDevice → ℕ
block_count d = length d.content / block_size

instance abbrev pub mem_device : BlockDevice MemDevice
mem_device = record {
  read_block = read_block;
  write_block = write_block;
  block_count = block_count;
}
