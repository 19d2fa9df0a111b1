-- ===== src/Unafs/Tests/Disks.antt =====
-- The theorems about devices, superblocks and the catalog on small inputs.
use una_os.Prelude.{ℕ, ◌≤◌, ◌≡◌, refl, List, [], ◌∷◌, length}
use una_os.Prelude.{some}
use una_os.Prelude.Exec.{ok}
use una_os.Unafs.Storage.{block_size, padded}
use una_os.Prelude.Text.{text_eq}
use una_os.Unafs.Storage.Mem.{mem_device}
use una_os.Unafs.Storage.Disk.{IsDisk}
use una_os.Unafs.Storage.Mem.Contract.{HasBlocks, block, mem_device-IsDisk}
use una_os.Unafs.Superblock.{new, to_bytes, from_bytes}
use una_os.Unafs.Superblock.Layout.{IsLaidOut, new-IsLaidOut, new-IsSupported}
use una_os.Unafs.Superblock.Layout.{from_bytes-to_bytes}
use una_os.Unafs.Tests.Fixtures.{
  superblock_codec, superblock_codec-IsRoundTrip, serialize_superblock,
}

mem_device-IsDisk_example : IsDisk 16 (HasBlocks 16) block
mem_device-IsDisk_example = mem_device-IsDisk 16

abbrev stored : List ℕ
stored = 2 ∷ 4096 ∷ 100 ∷ 0 ∷ 88 ∷ 11 ∷ 1 ∷ 1 ∷ 10 ∷ 0 ∷ []

to_bytes-new : to_bytes superblock_codec (new 100) ≡ ok stored
unfolding to_bytes new serialize_superblock text_eq
to_bytes-new = refl

serialized_new : superblock_codec.serialize (new 100) ≡ some stored
unfolding new serialize_superblock text_eq
serialized_new = refl

stored-decodes : superblock_codec.deserialize stored ≡ some (new 100)
stored-decodes = superblock_codec-IsRoundTrip.reads_back (new 100) stored [] serialized_new

new-IsLaidOut_example :
    IsLaidOut 100 (new 100) × (from_bytes superblock_codec stored ≡ ok (new 100))
new-IsLaidOut_example = new-IsLaidOut 100 superblock_codec stored stored-decodes

from_bytes-to_bytes_example :
    (from_bytes superblock_codec (padded stored) ≡ ok (new 100)) × (length stored ≤ block_size)
from_bytes-to_bytes_example =
    from_bytes-to_bytes superblock_codec superblock_codec-IsRoundTrip (new 100) stored
      (new-IsSupported 100) to_bytes-new
