-- ===== src/Unafs/Tests/Fixtures.antt =====
-- Data for the tests: disks of zeros and serialisers in place of bincode.
use una_os.Prelude.{ℕ, zero, suc, ◌*◌, ◌^◌, ◌<◌, List, [], ◌∷◌, ◌++◌, ◌≡◌, refl, Option, none, some}
use una_os.Prelude.{length, take, replicate, length-replicate, take-append_exact, ap}
use una_os.Unafs.Storage.{block_size}
use una_os.Unafs.Storage.Mem.{MemDevice}
use una_os.Unafs.Storage.Mem.Contract.{HasBlocks}
use una_os.Unafs.Codec.{Codec, IsRoundTrip}
use una_os.Unafs.Wal.{JournalOp, begin_op, end_op, begin_create, end_create, begin_write, end_write}
use una_os.Unafs.Superblock.{Superblock, magic}
use una_os.Prelude.{if◌then◌else◌, Bool-cases, inl, inr, sym}
use una_os.Prelude.Text.{text_eq, text_eq→eq}

pub zeros : ℕ → List ℕ
zeros n = replicate n 0

pub length-zeros : (n : ℕ) → length (zeros n) ≡ n
unfolding zeros
length-zeros n = length-replicate {A = ℕ} n 0

pub zero_disk : ℕ → MemDevice
zero_disk n = record { content = zeros (n * block_size) }

pub zero_disk-HasBlocks : (n : ℕ) → n < 2 ^ 52 → HasBlocks n (zero_disk n)
unfolding zero_disk
zero_disk-HasBlocks n h = (length-zeros (n * block_size), h)

-- A tag, then the number, and for a name its length and its bytes.
unfoldable pub serialize_op : JournalOp → Option (List ℕ)
serialize_op (begin_op id name) = some (0 ∷ id ∷ length name ∷ name)
serialize_op (end_op id) = some (1 ∷ id ∷ [])
serialize_op (begin_create id name) = some (2 ∷ id ∷ length name ∷ name)
serialize_op (end_create id) = some (3 ∷ id ∷ [])
serialize_op (begin_write id) = some (4 ∷ id ∷ [])
serialize_op (end_write id) = some (5 ∷ id ∷ [])

pub deserialize_op : List ℕ → Option JournalOp
deserialize_op (zero ∷ id ∷ n ∷ bytes) = some (begin_op id (take n bytes))
deserialize_op (suc zero ∷ id ∷ bytes) = some (end_op id)
deserialize_op (suc (suc zero) ∷ id ∷ n ∷ bytes) = some (begin_create id (take n bytes))
deserialize_op (suc (suc (suc zero)) ∷ id ∷ bytes) = some (end_create id)
deserialize_op (suc (suc (suc (suc zero))) ∷ id ∷ bytes) = some (begin_write id)
deserialize_op (suc (suc (suc (suc (suc zero)))) ∷ id ∷ bytes) = some (end_write id)
deserialize_op _ = none

abbrev pub op_codec : Codec JournalOp
op_codec = record { serialize = serialize_op; deserialize = deserialize_op }

op_reads_back :
    (op : JournalOp) (bytes rest : List ℕ)
    → serialize_op op ≡ some bytes
    → deserialize_op (bytes ++ rest) ≡ some op
unfolding serialize_op deserialize_op
op_reads_back (begin_op id name) bytes rest e =
    let f : bytes ≡ 0 ∷ id ∷ length name ∷ name = cc e in
    rw f (ap (λ t. some (begin_op id t)) (take-append_exact name rest (length name) refl))
op_reads_back (end_op id) bytes rest e = let f : bytes ≡ 1 ∷ id ∷ [] = cc e in rw f
op_reads_back (begin_create id name) bytes rest e =
    let f : bytes ≡ 2 ∷ id ∷ length name ∷ name = cc e in
    rw f (ap (λ t. some (begin_create id t)) (take-append_exact name rest (length name) refl))
op_reads_back (end_create id) bytes rest e = let f : bytes ≡ 3 ∷ id ∷ [] = cc e in rw f
op_reads_back (begin_write id) bytes rest e = let f : bytes ≡ 4 ∷ id ∷ [] = cc e in rw f
op_reads_back (end_write id) bytes rest e = let f : bytes ≡ 5 ∷ id ∷ [] = cc e in rw f

pub op_codec-IsRoundTrip : IsRoundTrip op_codec
op_codec-IsRoundTrip = record { reads_back = op_reads_back }

-- The numbers of a superblock one after the other; one with another magic is refused.
unfoldable pub serialize_superblock : Superblock → Option (List ℕ)
serialize_superblock sb =
    if text_eq sb.magic magic
    then some (
        sb.version ∷ sb.block_size ∷ sb.block_count ∷ sb.root_inode ∷ sb.free_blocks
        ∷ sb.bitmap_start ∷ sb.bitmap_blocks ∷ sb.journal_start ∷ sb.journal_blocks
        ∷ sb.catalog_inode ∷ [])
    else none

pub deserialize_superblock : List ℕ → Option Superblock
deserialize_superblock (a ∷ b ∷ c ∷ d ∷ e ∷ f ∷ g ∷ h ∷ i ∷ j ∷ rest) = some (record {
  magic = magic;
  version = a;
  block_size = b;
  block_count = c;
  root_inode = d;
  free_blocks = e;
  bitmap_start = f;
  bitmap_blocks = g;
  journal_start = h;
  journal_blocks = i;
  catalog_inode = j;
})
deserialize_superblock _ = none

abbrev pub superblock_codec : Codec Superblock
superblock_codec = record { serialize = serialize_superblock; deserialize = deserialize_superblock }

superblock_reads_back :
    (sb : Superblock) (bytes rest : List ℕ)
    → serialize_superblock sb ≡ some bytes
    → deserialize_superblock (bytes ++ rest) ≡ some sb
unfolding serialize_superblock deserialize_superblock
superblock_reads_back sb bytes rest e = elim (Bool-cases (text_eq sb.magic magic)) [
  | inl same ↦
      let m = text_eq→eq sb.magic magic same in
      let f : some (
            sb.version ∷ sb.block_size ∷ sb.block_count ∷ sb.root_inode ∷ sb.free_blocks
            ∷ sb.bitmap_start ∷ sb.bitmap_blocks ∷ sb.journal_start ∷ sb.journal_blocks
            ∷ sb.catalog_inode ∷ [])
          ≡ some bytes =
        rw (same, serialize_superblock) at e in
      let g : bytes
          ≡ sb.version ∷ sb.block_size ∷ sb.block_count ∷ sb.root_inode ∷ sb.free_blocks
            ∷ sb.bitmap_start ∷ sb.bitmap_blocks ∷ sb.journal_start ∷ sb.journal_blocks
            ∷ sb.catalog_inode ∷ [] =
        cc f in
      rw g (λ i. some (record sb { magic = sym m i }))
  | inr other ↦ let f : none ≡ some bytes = rw (other, serialize_superblock) at e in absurd (cc f)
]

pub superblock_codec-IsRoundTrip : IsRoundTrip superblock_codec
superblock_codec-IsRoundTrip = record { reads_back = superblock_reads_back }
