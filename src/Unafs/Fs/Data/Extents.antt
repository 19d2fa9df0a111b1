-- ===== src/Unafs/Fs/Data/Extents.antt =====
-- Looking a block up after one was added to the extents.
use una_os.Prelude.{ℕ, ◌+◌, ◌-◌, ◌*◌, ◌/◌, ◌%◌, ◌≤◌, ◌<◌, [], ◌∷◌, none, some, ◌≡◌}
use una_os.Prelude.{arith, true, All, inl, inr, Bool-cases}
use una_os.Unafs.Storage.{block_size}
use una_os.Unafs.Inode.{Extent, ExtentList}
use una_os.Unafs.Fs.Data.{find_block, merges, add_block}

-- The extents that `write_data` makes: whole blocks, at whole blocks.
pub record IsAligned (e : Extent) : Type 0 where
  pub start : e.logical_offset % block_size ≡ 0
  pub whole : e.length % block_size ≡ 0
  pub some_block : 0 < e.length

-- If the new block is taken into the last extent, that extent ends where the block of `offset` starts.
abbrev pub HasNoGap : ExtentList → ℕ → ℕ → Type 0
HasNoGap [] offset new_block = Unit
HasNoGap (e ∷ []) offset new_block =
    merges e offset new_block ≡ true
    → e.logical_offset + e.length ≡ offset / block_size * block_size
HasNoGap (e ∷ e' ∷ es) offset new_block = HasNoGap (e' ∷ es) offset new_block

merged_block :
    (e : Extent) (offset new_block : ℕ)
    → IsAligned e
    → merges e offset new_block ≡ true
    → e.logical_offset + e.length ≡ offset / block_size * block_size
    → e.physical_block + (offset - e.logical_offset) / block_size ≡ new_block
unfolding merges
merged_block e offset new_block a m g =
    let pos = a.some_block in let whole = a.whole in let start = a.start in ground arith

pub merges_past :
    (e : Extent) (offset new_block : ℕ)
    → merges e offset new_block ≡ true
    → e.logical_offset + e.length ≤ offset
unfolding merges
merges_past e offset new_block m = ground arith

-- Where no extent covers `offset`, and the extent that takes the new block (if one does) ends at the
-- block of `offset`, the block that was added is the one that `offset` is looked up to.
pub find_block-add_block :
    (chunks : ExtentList) (offset new_block : ℕ)
    → All IsAligned chunks
    → find_block chunks offset ≡ none
    → HasNoGap chunks offset new_block
    → find_block (add_block chunks offset new_block) offset ≡ some new_block
unfolding find_block add_block
find_block-add_block [] offset new_block al miss gap = ground arith
find_block-add_block (e ∷ []) offset new_block (a, al) miss gap =
    elim (Bool-cases (merges e offset new_block)) [
      | inl m ↦
          let g = gap m in
          rw (m, add_block)
            (ground
              (arith, merged_block e offset new_block a m g, merges_past e offset new_block m))
      | inr m ↦ rw (m, add_block) (ground arith)
    ]
find_block-add_block (e ∷ e' ∷ es) offset new_block (a, al) miss gap =
    ground (arith, find_block-add_block (e' ∷ es) offset new_block al)

-- Adding a block leaves every offset that had a block with the same block.
pub find_block-add_block_kept :
    (chunks : ExtentList) (offset new_block o id : ℕ)
    → find_block chunks o ≡ some id
    → find_block (add_block chunks offset new_block) o ≡ some id
unfolding find_block add_block
find_block-add_block_kept [] offset new_block o id h = absurd (cc h)
find_block-add_block_kept (e ∷ []) offset new_block o id h = ground arith
find_block-add_block_kept (e ∷ e' ∷ es) offset new_block o id h =
    ground (arith, find_block-add_block_kept (e' ∷ es) offset new_block o id)
