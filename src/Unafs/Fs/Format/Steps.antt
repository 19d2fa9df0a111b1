-- ===== src/Unafs/Fs/Format/Steps.antt =====
-- The steps of `format`: the journal is reset, and a new inode is put into the first free block.
use una_os.Prelude.{
  ℕ, length, ◌+◌, ◌≤◌, ◌<◌, ◌≡◌, ◌≢◌, ◌⊎◌, refl, ap, sym, ◌∙◌, arith, inl, inr, some, Option-cases,
}
use una_os.Prelude.{List, ltb}
use una_os.Prelude.Exec.{ok, err}
use una_os.Unafs.Storage.{BlockDevice, zero_block, length-zero_block, padded}
use una_os.Unafs.Storage.Disk.{IsDisk}
use una_os.Unafs.Bitmap
use una_os.Unafs.Bitmap.Used.{used}
use una_os.Unafs.Bitmap.Alloc.{allocate-Allocates, allocate-none}
use una_os.Unafs.Codec.{DoesNotFit}
use una_os.Unafs.Superblock.{Superblock}
use una_os.Unafs.Inode.{Inode, InodeError}
use una_os.Unafs.Wal
use una_os.Unafs.Wal.{reset, journal_start}
use una_os.Unafs.Fs.{UnaFs, Codecs, inode, take_free}
use una_os.Unafs.Fs.{allocate_inode_block, write_inode}
use una_os.Unafs.Fs.Mounted.{system_end, IsMounted, Allocated, taken, taken-Allocated}
use una_os.Unafs.Fs.Inodes.{write_inode-Written}

module _ {D : Type 0} ⦃dev : BlockDevice D⦄ (size : ℕ) (Good : D → Type 0) (block : D → ℕ → List ℕ)
    (disk : IsDisk size Good block) where
  -- Exactly the blocks before `k` are in use.
  pub record IsFilled (s : UnaFs D) (k : ℕ) : Type 0 where
    pub mounted : IsMounted size Good block disk s
    pub marks : (j : ℕ) → used s.bitmap j ≡ ltb j k
    pub count : s.bitmap.block_count ≡ size

  pub reset-IsFilled :
      (s : UnaFs D) (k : ℕ)
      → IsFilled s k
      → 2 ≤ size
      → (d : D) × (reset (s.journal, s.device) ≡ (ok tt, (Wal.new, d)))
        × IsFilled (record s { journal = Wal.new; device = d }) k
  unfolding reset
  reset-IsFilled s k f two =
      let m = f.mounted in
      let (d, wrote, good, content) =
        disk.write s.device journal_start zero_block m.good two length-zero_block in
      (
        d,
        rw wrote refl,
        record {
          mounted = record {
            good = good;
            valid = m.valid;
            in_disk = m.in_disk;
            behind_super = m.behind_super;
            room = m.room;
            system = m.system;
          };
          marks = f.marks;
          count = f.count;
        },
      )

  pub allocate-IsFilled :
      (s : UnaFs D) (k : ℕ)
      → IsFilled s k
      → k < size
      → (s' : UnaFs D) × (allocate_inode_block s ≡ (ok k, s'))
        × IsFilled s' (k + 1)
        × Allocated size Good block disk s k s'
  unfolding allocate_inode_block
  allocate-IsFilled s k f lt = elim (Option-cases (Bitmap.allocate s.bitmap).0) [
    | inl full ↦ absurd (
        ground (
          arith,
          (allocate-none s.bitmap f.mounted.valid).0.0 full k (omega (arith, f.count)),
          f.marks k,
        ))
    | inr (id, found) ↦
        let a =
          taken-Allocated size Good block disk s id f.mounted
            (allocate-Allocates s.bitmap id f.mounted.valid found) in
        let same : id ≡ k = ground (arith, f.marks id, a.was_free, a.lowest k, f.marks k) in
        (
          taken s,
          rw (found, allocate_inode_block) (rw same refl),
          record {
            mounted = a.kept.mounted;
            marks = λ j. ground (arith, a.marks j, f.marks j, same);
            count = a.count ∙ f.count;
          },
          rw (← same) a,
        )
  ]

  -- A new inode in the first free block.
  pub record Placed (c : Codecs) (s : UnaFs D) (k : ℕ) (set : Superblock → Superblock)
      (node : Inode) (s' : UnaFs D) : Type 0 where
    pub filled : IsFilled s' (k + 1)
    pub superblock : s'.superblock ≡ set (take_free s.superblock)
    pub same_end : system_end s' ≡ system_end s
    pub bytes : List ℕ
    pub serialized : c.inode.serialize node ≡ some bytes
    pub here : block s'.device k ≡ padded bytes
    pub others : (j : ℕ) → j < size → k ≢ j → block s'.device j ≡ block s.device j

  pub write_inode-Placed :
      (c : Codecs) (s s2 : UnaFs D) (k : ℕ) (set : Superblock → Superblock) (node : Inode)
      → ((sb : Superblock) → (set sb).bitmap_start ≡ sb.bitmap_start)
      → node.id ≡ k
      → k < size
      → IsFilled s2 (k + 1)
      → Allocated size Good block disk s k s2
      → ((e : InodeError) × (r : UnaFs D) × (write_inode c node
              (record s2 { superblock = set s2.superblock })
            ≡ (err (inode e), r))
          × DoesNotFit (c.inode.serialize node))
        ⊎ ((s' : UnaFs D) × (write_inode c node (record s2 { superblock = set s2.superblock })
              ≡ (ok tt, s'))
            × Placed c s k set node s')
  write_inode-Placed c s s2 k set node geometry at inside f a =
      let s3 : UnaFs D = record s2 { superblock = set s2.superblock } in
      let same : system_end s3 ≡ system_end s2 = omega (arith, geometry s2.superblock) in
      let m = f.mounted in
      let m3 : IsMounted size Good block disk s3 = record {
        good = m.good;
        valid = m.valid;
        in_disk = m.in_disk;
        behind_super = omega (arith, m.behind_super, geometry s2.superblock);
        room = omega (arith, same, m.room);
        system = λ j h. m.system j (omega (arith, same));
      } in
      elim (write_inode-Written size Good block disk c node s3 m3 (omega arith)) [
        | inl (e, failed, big) ↦ inl (e, s3, failed, big)
        | inr (s', done, w) ↦
            let start = ap (λ t. t.bitmap_start) w.superblock in
            let width = ap (λ t. length t.bits) w.bitmap in
            inr (
              s',
              done,
              record {
                filled = record {
                  mounted = w.mounted;
                  marks = λ j. ap (λ t. used t j) w.bitmap ∙ f.marks j;
                  count = ap (λ t. t.block_count) w.bitmap ∙ f.count;
                };
                superblock = w.superblock ∙ ap set a.superblock;
                same_end = omega (arith, start, width, same, a.kept.same_end);
                bytes = w.bytes;
                serialized = w.serialized;
                here = ap (block s'.device) (sym at) ∙ w.here;
                others =
                    λ j lt ne. w.others j lt (λ e. ne (sym at ∙ e)) ∙ ap (λ t. block t j) a.device;
              },
            )
      ]
