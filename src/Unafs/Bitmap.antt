-- ===== src/Unafs/Bitmap.antt =====
-- libs/unafs/src/bitmap.rs: the free-space bitmap.
pub mod Used
pub mod Search
pub mod Alloc
pub mod Marks
pub mod Persist
use una_os.Prelude.{ℕ, zero, suc, ◌+◌, ◌-◌, ◌*◌, ◌/◌, ◌%◌, List, [], ◌∷◌, ◌++◌, Option, none, some}
use una_os.Prelude.{
  ltb, leb, ◌==◌, if◌then◌else◌, length, get_or, set, take, drop, replicate, splice,
}
use una_os.Prelude.Bits.{bit, set_bit, clear_bit}
use una_os.Prelude.Exec.{Exec, ◌>>=◌, ◌>>◌, pure}
use una_os.Unafs.Storage.{StorageError, BlockDevice, block_size, padded}

pub record SpaceMap : Type 0 where
  pub bits : List ℕ
  pub block_count : ℕ

abbrev pub div_ceil : ℕ → ℕ → ℕ
div_ceil a b = (a + b - 1) / b

unfoldable pub new : ℕ → SpaceMap
new block_count = record { bits = replicate (div_ceil block_count 8) 0; block_count = block_count }

-- `for bit_idx in 0..8`: the first clear bit from `k` on, with `left` bits to look at.
unfoldable pub first_clear : ℕ → ℕ → ℕ → Option ℕ
first_clear byte k zero = none
first_clear byte k (suc left) =
    let rest = first_clear byte (k + 1) left in if bit byte k then rest else some k

-- The loop over the bytes from `byte_idx` on: the block that is claimed and the bytes after it.
unfoldable pub claim : ℕ → ℕ → List ℕ → Option (ℕ × List ℕ)
claim block_count byte_idx [] = none
claim block_count byte_idx (byte ∷ bytes) =
    let rest : Option (ℕ × List ℕ) = elim (claim block_count (byte_idx + 1) bytes) [
      | none ↦ none
      | some (id, bytes') ↦ some (id, byte ∷ bytes')
    ] in
    if byte == 255 then rest else elim (first_clear byte 0 8) [
      | none ↦ rest
      | some bit_idx ↦
          if leb block_count (byte_idx * 8 + bit_idx)
          then none
          else some (byte_idx * 8 + bit_idx, set_bit byte bit_idx ∷ bytes)
    ]

-- The block, if one is free, and the map afterwards.
unfoldable pub allocate : SpaceMap → Option ℕ × SpaceMap
allocate m = elim (claim m.block_count 0 m.bits) [
  | none ↦ (none, m)
  | some (id, bits') ↦ (some id, record m { bits = bits' })
]

pub mark_used : ℕ → SpaceMap → SpaceMap
mark_used block_id m =
    if ltb (block_id / 8) (length m.bits)
    then record m {
      bits = set m.bits (block_id / 8) (set_bit (get_or m.bits (block_id / 8) 0) (block_id % 8));
    }
    else m

pub free : ℕ → SpaceMap → SpaceMap
free block_id m =
    if ltb (block_id / 8) (length m.bits)
    then record m {
      bits = set m.bits (block_id / 8) (clear_bit (get_or m.bits (block_id / 8) 0) (block_id % 8));
    }
    else m

module _ {D : Type 0} ⦃dev : BlockDevice D⦄ where
  -- `for i in 0..count`, with `left` blocks to read from `id` on.
  pub load_blocks : ℕ → ℕ → Exec StorageError D (List ℕ)
  load_blocks id zero = pure []
  load_blocks id (suc left) = do
    buf ← dev.read_block id block_size
    rest ← load_blocks (id + 1) left
    pure (buf ++ rest)

  pub load : ℕ → ℕ → Exec StorageError D SpaceMap
  load start_block count = do
    bits ← load_blocks start_block count
    pure (record { bits = bits; block_count = count * block_size * 8 })

  -- The chunks of `bits` from `id` on; `fuel` bounds their number.
  pub save_chunks : ℕ → ℕ → List ℕ → Exec StorageError D (Unit {0})
  save_chunks fuel id [] = pure tt
  save_chunks zero id (b ∷ bits) = pure tt
  save_chunks (suc fuel) id (b ∷ bits) = do
    dev.write_block id (padded (take block_size (b ∷ bits)))
    save_chunks fuel (id + 1) (drop block_size (b ∷ bits))

  pub save : ℕ → SpaceMap → Exec StorageError D (Unit {0})
  save start_block m = save_chunks (length m.bits) start_block m.bits
