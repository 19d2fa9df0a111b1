-- ===== src/Unafs/Tests/Maps.antt =====
-- The theorems about bitmaps on small maps.
use una_os.Prelude.{ℕ, ◌≤◌, ◌<◌, ◌≡◌, refl, arith, [], ◌∷◌, true, some, none, ◌↔◌}
use una_os.Prelude.{length, ◌⊎◌, ◌+◌, ◌*◌}
use una_os.Prelude.Exec.{ok}
use una_os.Unafs.Storage.{block_size}
use una_os.Prelude.Bits.{bit, set_bit}
use una_os.Unafs.Storage.Mem.{MemDevice, mem_device}
use una_os.Unafs.Storage.Mem.Contract.{HasBlocks, block, mem_device-IsDisk}
use una_os.Unafs.Bitmap.{SpaceMap, div_ceil, first_clear, claim, allocate, save, load}
use una_os.Unafs.Bitmap.Used.{used, IsValid}
use una_os.Unafs.Bitmap.Alloc.{Allocates, allocate-Allocates, allocate-none}
use una_os.Unafs.Bitmap.Persist.{load-save}
use una_os.Unafs.Tests.Fixtures.{zero_disk, zero_disk-HasBlocks}

-- Blocks 0 to 8 and 10 are in use.
abbrev some_free : SpaceMap
some_free = record { bits = 255 ∷ 5 ∷ []; block_count = 14 }

abbrev all_used : SpaceMap
all_used = record { bits = 255 ∷ 31 ∷ []; block_count = 13 }

some_free-IsValid : IsValid some_free
some_free-IsValid = record { bytes = (omega arith, (omega arith, tt)); covers = omega arith }

all_used-IsValid : IsValid all_used
all_used-IsValid = record { bytes = (omega arith, (omega arith, tt)); covers = omega arith }

allocate-some_free : (allocate some_free).0 ≡ some 9
unfolding allocate claim first_clear bit set_bit
allocate-some_free = refl

allocate-Allocates_example : Allocates some_free 9 (allocate some_free).1
allocate-Allocates_example = allocate-Allocates some_free 9 some_free-IsValid allocate-some_free

allocate-none_example :
    (((allocate all_used).0 ≡ none) ↔ ((j : ℕ) → j < 13 → used all_used j ≡ true))
    × (((allocate all_used).0 ≡ none) ↔ (allocate all_used ≡ (none, all_used)))
allocate-none_example = allocate-none all_used all_used-IsValid

load-save_example :
    (d' : MemDevice) × (m' : SpaceMap) × (save 11 some_free (zero_disk 12) ≡ (ok tt, d'))
    × (load 11 (div_ceil (length some_free.bits) block_size) d' ≡ (ok m', d'))
    × ((j : ℕ) → used m' j ≡ used some_free j)
    × (m'.block_count ≡ div_ceil (length some_free.bits) block_size * block_size * 8)
    × HasBlocks 12 d'
    × ((j : ℕ)
        → j < 12
        → (j < 11) ⊎ (11 + div_ceil (length some_free.bits) block_size ≤ j)
        → block d' j ≡ block (zero_disk 12) j)
load-save_example =
    load-save 12 (HasBlocks 12) block (mem_device-IsDisk 12) some_free 11 (zero_disk 12)
      (omega arith) (zero_disk-HasBlocks 12 (omega arith))
