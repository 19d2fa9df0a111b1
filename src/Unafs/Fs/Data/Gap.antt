-- ===== src/Unafs/Fs/Data/Gap.antt =====
-- libs/unafs/src/fs.rs, write_data: a write behind a gap, where the new block goes to the last extent.
use una_os.Prelude.{ℕ, ◌+◌, ◌≤◌, ◌<◌, [], ◌∷◌, none}
use una_os.Prelude.{◌≡◌, true, length}
use una_os.Unafs.Storage.{block_size}
use una_os.Unafs.Inode.{ExtentList}
use una_os.Unafs.Fs.Data.{find_block, merges}

-- The last extent takes the new block though it ends a block or more before the byte at `offset`.
abbrev pub LeavesGap : ExtentList → ℕ → ℕ → Type 0
LeavesGap [] offset new_block = ⊥
LeavesGap (e ∷ []) offset new_block =
    (merges e offset new_block ≡ true) × (e.logical_offset + e.length + block_size ≤ offset)
LeavesGap (e ∷ e' ∷ es) offset new_block = LeavesGap (e' ∷ es) offset new_block

-- No extent covers the `n` bytes from `offset` on.
abbrev pub Misses : ExtentList → ℕ → ℕ → Type 0
Misses chunks offset n = (p : ℕ) → offset ≤ p → p < offset + n → find_block chunks p ≡ none
