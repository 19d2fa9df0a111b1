-- ===== src/Unafs/Fs/Format/Layout.antt =====
-- What `format` leaves: a mounted file system with a root directory and a catalog.
use una_os.Prelude.{ℕ, zero, suc, ◌+◌, ◌*◌, ◌/◌, ◌%◌, ◌^◌, ◌≤◌, ◌≡◌, refl, ◌∙◌, arith}
use una_os.Prelude.{
  true, ◌&&◌, List, length, leb, ltb, lt→ltb, ◌==◌, if◌then◌else◌, length-replicate,
}
use una_os.Unafs.Storage.{BlockDevice, block_size}
use una_os.Unafs.Storage.Disk.{IsDisk}
use una_os.Unafs.Bitmap
use una_os.Unafs.Bitmap.{SpaceMap, div_ceil}
use una_os.Unafs.Bitmap.Used.{used, IsValid}
use una_os.Unafs.Bitmap.Marks.{new-IsValid, used-new, used-mark_used, mark_used-IsValid}
use una_os.Unafs.Superblock
use una_os.Unafs.Superblock.{Superblock}
use una_os.Unafs.Wal
use una_os.Unafs.Fs.{UnaFs, Codecs}
use una_os.Unafs.Fs.Mounted.{system_end, IsMounted}
use una_os.Unafs.Fs.Format.{mark_range, system_map, blank}

-- A map of the same size.
pub record IsSame (m m' : SpaceMap) : Type 0 where
  pub valid : IsValid m'
  pub width : length m'.bits ≡ length m.bits
  pub count : m'.block_count ≡ m.block_count

mark_range-IsSame :
    (start count : ℕ) (m : SpaceMap) → IsValid m → IsSame m (mark_range start count m)
unfolding mark_range
mark_range-IsSame start zero m v = record { valid = v; width = refl; count = refl }
mark_range-IsSame start (suc count) m v =
    let (v', width, same) = mark_used-IsValid m start v in
    let rest = mark_range-IsSame (start + 1) count (Bitmap.mark_used start m) v' in
    record { valid = rest.valid; width = rest.width ∙ width; count = rest.count ∙ same }

-- The loop puts exactly its range in use.
used-mark_range :
    (start count : ℕ) (m : SpaceMap) (j : ℕ)
    → IsValid m
    → start + count ≤ 8 * length m.bits
    → used (mark_range start count m) j
      ≡ (if leb start j && ltb j (start + count) then true else used m j)
unfolding mark_range
used-mark_range start zero m j v h = ground arith
used-mark_range start (suc count) m j v h =
    let (v', width, same) = mark_used-IsValid m start v in
    ground (
      arith,
      used-mark_range (start + 1) count (Bitmap.mark_used start m) j v' (omega arith),
      used-mark_used m start j v (omega arith),
    )

length-new :
    (n : ℕ) → (length (Bitmap.new n).bits ≡ div_ceil n 8) × ((Bitmap.new n).block_count ≡ n)
unfolding Bitmap.new
length-new n = (length-replicate {A = ℕ} (div_ceil n 8) 0, refl)

-- The system's blocks on a new disk of `n` blocks.
abbrev pub system_blocks : ℕ → ℕ
system_blocks n = 11 + div_ceil (div_ceil n 8) block_size

-- The map of a new disk: exactly the system's blocks are in use.
pub used-system_map :
    (n j : ℕ)
    → system_blocks n ≤ n
    → IsValid (system_map (Superblock.new n))
      × (length (system_map (Superblock.new n)).bits ≡ div_ceil n 8)
      × ((system_map (Superblock.new n)).block_count ≡ n)
      × (used (system_map (Superblock.new n)) j ≡ ltb j (system_blocks n))
unfolding system_map Superblock.new
used-system_map n j h =
    let count = div_ceil (div_ceil n 8) block_size in
    let (width0, count0) = length-new n in
    let m1 = Bitmap.mark_used 0 (Bitmap.new n) in
    let (v1, width1, count1) = mark_used-IsValid (Bitmap.new n) 0 (new-IsValid n) in
    let m2 = mark_range 1 10 m1 in
    let s2 = mark_range-IsSame 1 10 m1 v1 in
    let s3 = mark_range-IsSame 11 count m2 s2.valid in
    let width : length m2.bits ≡ div_ceil n 8 = s2.width ∙ width1 ∙ width0 in
    let a = used-mark_used (Bitmap.new n) 0 j (new-IsValid n) (omega arith) in
    let b = used-mark_range 1 10 m1 j v1 (omega arith) in
    let c = used-mark_range 11 count m2 j s2.valid (omega arith) in
    (
      s3.valid,
      s3.width ∙ width,
      s3.count ∙ s2.count ∙ count1 ∙ count0,
      c ∙ ground (arith, a, b, used-new n j),
    )

pub fresh : {D : Type 0} → ℕ → D → UnaFs D
fresh size d = record {
  device = d;
  superblock = Superblock.new size;
  bitmap = system_map (Superblock.new size);
  journal = Wal.new;
}

pub fresh-superblock :
    {D : Type 0} (size : ℕ) (d : D) → (fresh size d).superblock ≡ Superblock.new size
unfolding fresh
fresh-superblock size d = refl

module _ {D : Type 0} ⦃dev : BlockDevice D⦄ (size : ℕ) (Good : D → Type 0) (block : D → ℕ → List ℕ)
    (disk : IsDisk size Good block) (c : Codecs) (d : D) (size_mb : ℕ) (good : Good d)
    (room : system_blocks size ≤ size) where
  -- The state that `format` starts from, on a disk with room for the system's blocks.
  pub blank-fresh : blank c d size_mb ≡ fresh size d
  unfolding blank fresh
  blank-fresh =
      let n : (if dev.block_count d == 0
            then size_mb * 1024 * 1024 % 2 ^ 64 / block_size
            else dev.block_count d)
          ≡ size =
        ground (arith, disk.count d good, room) in
      rw n refl

  pub fresh-IsMounted :
      IsMounted size Good block disk (fresh size d)
      × (system_end (fresh size d) ≡ system_blocks size)
      × ((j : ℕ) → used (fresh size d).bitmap j ≡ ltb j (system_blocks size))
      × ((fresh size d).bitmap.block_count ≡ size)
  unfolding fresh Superblock.new
  fresh-IsMounted =
      let (valid, width, count, zeroth) = used-system_map size 0 room in
      let same : system_end (fresh size d) ≡ system_blocks size = omega (arith, width) in
      let marks = λ (j : ℕ). (used-system_map size j room).3 in
      (
        record {
          good = good;
          valid = valid;
          in_disk = omega (arith, count);
          behind_super = omega arith;
          room = omega (arith, same);
          system = λ j h. marks j ∙ lt→ltb _ _ (omega (arith, same));
        },
        same,
        marks,
        count,
      )
