-- ===== src/Unafs/Storage/Disk.antt =====
-- What UnaFS relies on of a block device, apart from how the device stores its blocks.
use una_os.Prelude.{ℕ, ◌<◌, ◌≡◌, List, length, ◌==◌, if◌then◌else◌}
use una_os.Prelude.Exec.{ok}
use una_os.Unafs.Storage.{BlockDevice, block_size}

-- A device in good order has `size` blocks that hold what was last written to them.
pub record IsDisk {D : Type 0} ⦃dev : BlockDevice D⦄ (size : ℕ) (Good : D → Type 0)
    (block : D → ℕ → List ℕ) : Type 0 where
  pub read :
      (d : D) (id : ℕ) → Good d → id < size → dev.read_block id block_size d ≡ (ok (block d id), d)
  pub width : (d : D) (id : ℕ) → Good d → id < size → length (block d id) ≡ block_size
  pub write :
      (d : D) (id : ℕ) (buf : List ℕ)
      → Good d
      → id < size
      → length buf ≡ block_size
      → (d' : D) × (dev.write_block id buf d ≡ (ok tt, d'))
        × Good d'
        × ((j : ℕ) → j < size → block d' j ≡ (if id == j then buf else block d j))
  pub count : (d : D) → Good d → dev.block_count d ≡ size
