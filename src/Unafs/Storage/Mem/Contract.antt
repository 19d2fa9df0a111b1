-- ===== src/Unafs/Storage/Mem/Contract.antt =====
-- `MemDevice` keeps the contract of a disk.
use una_os.Prelude.{◌∙◌, ℕ, ◌+◌, ◌*◌, ◌^◌, ◌<◌, List, ◌≡◌, arith}
use una_os.Prelude.{length, slice, splice, ◌==◌, if◌then◌else◌}
use una_os.Prelude.{length-slice, length-splice, slice-splice_self, slice-splice_before}
use una_os.Prelude.{slice-splice_after}
use una_os.Prelude.Exec.{ok}
use una_os.Unafs.Storage.{block_size}
use una_os.Unafs.Storage.Disk.{IsDisk}
use una_os.Unafs.Storage.Mem.{MemDevice, mem_device, start_of, end_of, read_block, write_block}
use una_os.Unafs.Storage.Mem.{block_count}

-- A RAM disk of `size` blocks whose byte offsets fit 64 bits.
abbrev pub HasBlocks : ℕ → MemDevice → Type 0
HasBlocks size d = (length d.content ≡ size * block_size) × (size < 2 ^ 52)

abbrev pub block : MemDevice → ℕ → List ℕ
block d id = slice d.content (id * block_size) block_size

start_of_lem : (id size : ℕ) → id < size → size < 2 ^ 52 → start_of id ≡ id * block_size
start_of_lem id size h k = omega arith

end_of_lem : (id size : ℕ) → id < size → size < 2 ^ 52 → end_of id ≡ id * block_size + block_size
end_of_lem id size h k = omega arith

read_ok :
    (size : ℕ) (d : MemDevice) (id : ℕ)
    → HasBlocks size d
    → id < size
    → read_block id block_size d ≡ (ok (block d id), d)
unfolding read_block
read_ok size d id (len, small) h =
    ground (arith, start_of_lem id size h small, end_of_lem id size h small)

write_ok :
    (size : ℕ) (d : MemDevice) (id : ℕ) (buf : List ℕ)
    → HasBlocks size d
    → id < size
    → length buf ≡ block_size
    → write_block id buf d ≡ (ok tt, record { content = splice d.content (id * block_size) buf })
unfolding write_block
write_ok size d id buf (len, small) h w =
    ground (arith, start_of_lem id size h small, end_of_lem id size h small)

block-write :
    (size : ℕ) (content : List ℕ) (id : ℕ) (buf : List ℕ) (j : ℕ)
    → length content ≡ size * block_size
    → id < size
    → length buf ≡ block_size
    → j < size
    → slice (splice content (id * block_size) buf) (j * block_size) block_size
      ≡ (if id == j then buf else slice content (j * block_size) block_size)
block-write size content id buf j len h w k = ground (
  arith,
  slice-splice_self content (id * block_size) block_size buf,
  slice-splice_before content (id * block_size) (j * block_size) block_size buf,
  slice-splice_after content (id * block_size) (j * block_size) block_size buf,
)

-- Any `MemDevice` with `size` whole blocks is a disk: reads return the last write of their block.
pub mem_device-IsDisk : (size : ℕ) → IsDisk size (HasBlocks size) block
unfolding block_count
mem_device-IsDisk size = record {
  read = λ d id good h. read_ok size d id good h;
  width = λ d id good h. length-slice d.content (id * block_size) block_size (omega arith);
  write = λ d id buf good h w. (
    record { content = splice d.content (id * block_size) buf },
    write_ok size d id buf good h w,
    (length-splice d.content (id * block_size) buf (omega arith) ∙ good.0, good.1),
    λ j k. block-write size d.content id buf j good.0 h w k,
  );
  count = λ d good. omega (arith, good.0);
}
