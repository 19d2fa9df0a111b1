-- ===== src/Unafs/Fs/Format/Formatted.antt =====
-- What `format` returns: a mounted file system with a root directory and a catalog.
use una_os.Prelude.{ℕ, ◌+◌, ◌≤◌, ◌<◌, ◌≡◌, ◌⊎◌, refl, ap, ◌∙◌, arith, inl, inr}
use una_os.Prelude.{◌-◌, Bool-cases}
use una_os.Prelude.{List, ltb, lt→ltb}
use una_os.Prelude.Exec.{ok, err}
use una_os.Unafs.Storage.{BlockDevice}
use una_os.Unafs.Storage.Disk.{IsDisk}
use mathlib.Core.Path.{subst}
use una_os.Unafs.Codec.{IsRoundTrip, DoesNotFit}
use una_os.Unafs.Bitmap.Used.{used}
use una_os.Unafs.Superblock
use una_os.Unafs.Superblock.{Superblock, SuperblockError}
use una_os.Unafs.Inode
use una_os.Unafs.Inode.{Inode, InodeError, FileKind, directory, system}
use una_os.Unafs.Wal
use una_os.Unafs.Wal.{reset, journal_start}
use una_os.Unafs.Fs.{UnaFs, Codecs, FileSystemError, inode, superblock, take_free}
use una_os.Unafs.Fs.{read_inode}
use una_os.Unafs.Fs.Mounted.{system_end}
use una_os.Unafs.Fs.Mounted.{sync_metadata-Synced, Synced}
use una_os.Unafs.Fs.Inodes.{read_inode-here}
use una_os.Unafs.Fs.Format.{format_steps, format, blank}
use una_os.Unafs.Fs.Format.Layout.{
  system_blocks, fresh, fresh-superblock, blank-fresh, fresh-IsMounted,
}
use una_os.Unafs.Fs.Format.Steps.{
  IsFilled, Placed, reset-IsFilled, allocate-IsFilled, write_inode-Placed,
}

module _ {D : Type 0} ⦃dev : BlockDevice D⦄ (size : ℕ) (Good : D → Type 0) (block : D → ℕ → List ℕ)
    (disk : IsDisk size Good block) where
  -- A file system whose root directory and catalog are the two blocks behind the system's, and where
  -- no other block behind the system's is in use.
  pub record IsFormatted (c : Codecs) (s : UnaFs D) : Type 0 where
    pub filled : IsFilled size Good block disk s (system_blocks size + 2)
    pub root_inode : s.superblock.root_inode ≡ system_blocks size
    pub catalog_inode : s.superblock.catalog_inode ≡ system_blocks size + 1
    pub root :
        (r : UnaFs D) × (read_inode c s.superblock.root_inode s
          ≡ (ok (Inode.new s.superblock.root_inode directory), r))
    pub catalog :
        (r : UnaFs D) × (read_inode c s.superblock.catalog_inode s
          ≡ (ok (Inode.new s.superblock.catalog_inode system), r))

  abbrev to_root : ℕ → Superblock → Superblock
  to_root id sb = record sb { root_inode = id }

  abbrev to_catalog : ℕ → Superblock → Superblock
  to_catalog id sb = record sb { catalog_inode = id }

  -- The superblock of a new file system: two blocks were taken for the root directory and the catalog.
  abbrev pub formatted_superblock : Superblock
  formatted_superblock = record (Superblock.new size) {
    root_inode = system_blocks size;
    catalog_inode = system_blocks size + 1;
    free_blocks = (Superblock.new size).free_blocks - 2;
  }

  two_taken :
      (sb : Superblock) (k : ℕ)
      → to_catalog (k + 1) (take_free (to_root k (take_free sb)))
        ≡ record sb { root_inode = k; catalog_inode = k + 1; free_blocks = sb.free_blocks - 2 }
  two_taken sb k =
      let to = λ (n : ℕ). record sb { root_inode = k; catalog_inode = k + 1; free_blocks = n } in
      elim (Bool-cases (ltb 0 sb.free_blocks)) [
        | inl some_left ↦ elim (Bool-cases (ltb 0 (sb.free_blocks - 1))) [
          | inl more ↦ rw (some_left, more) (ap to (omega arith))
          | inr last ↦ rw (some_left, last) (ap to (ground arith))
        ]
        | inr full ↦ rw (full, full) (ap to (ground arith))
      ]

  -- What can go wrong on a disk with room: a record that does not serialise into a block.
  pub data IsRefusal (c : Codecs) : FileSystemError → Type 0 where
    root_refused :
        (e : InodeError)
        → DoesNotFit (c.inode.serialize (Inode.new (system_blocks size) directory))
        → IsRefusal c (inode e)
    catalog_refused :
        (e : InodeError)
        → DoesNotFit (c.inode.serialize (Inode.new (system_blocks size + 1) system))
        → IsRefusal c (inode e)
    superblock_refused :
        (e : SuperblockError)
        → DoesNotFit (c.superblock.serialize formatted_superblock)
        → IsRefusal c (superblock e)

  new-id : (id : ℕ) (kind : FileKind) → (Inode.new id kind).id ≡ id
  unfolding Inode.new
  new-id id kind = refl

  take_free-root : (sb : Superblock) → (take_free sb).root_inode ≡ sb.root_inode
  take_free-root sb = ground arith

  read_at :
      (c : Codecs) (s : UnaFs D) (kind : FileKind) (id k : ℕ)
      → id ≡ k
      → read_inode c k s ≡ (ok (Inode.new k kind), s)
      → read_inode c id s ≡ (ok (Inode.new id kind), s)
  read_at c s kind id k e h = rw e h

  Placed-IsFormatted :
      (c : Codecs) (s1 s4 s7 s8 : UnaFs D) (k : ℕ)
      → k ≡ system_blocks size
      → IsRoundTrip c.inode
      → system_end s1 ≡ k
      → k + 2 ≤ size
      → Placed size Good block disk c s1 k (to_root k) (Inode.new k directory) s4
      → Placed size Good block disk c s4 (k + 1) (to_catalog (k + 1)) (Inode.new (k + 1) system) s7
      → Synced size Good block disk s7 s8
      → IsFormatted c s8
  Placed-IsFormatted c s1 s4 s7 s8 k is trip end room p4 p7 y =
      let m = y.kept.mounted in
      let root : s8.superblock.root_inode ≡ k =
        ap (λ t. t.root_inode) (y.superblock ∙ p7.superblock)
        ∙ take_free-root s4.superblock
        ∙ ap (λ t. t.root_inode) p4.superblock in
      let catalog : s8.superblock.catalog_inode ≡ k + 1 =
        ap (λ t. t.catalog_inode) (y.superblock ∙ p7.superblock) in
      let kept = λ (j : ℕ) (lt : j < k + 2) (le : k ≤ j).
        y.kept.blocks j (omega arith) (omega (arith, p4.same_end, p7.same_end, end))
          (p7.filled.marks j ∙ lt→ltb j (k + 1 + 1) (omega arith)) in
      record {
        filled = record {
          mounted = m;
          marks = λ j. ap (λ t. used t j) y.bitmap ∙ p7.filled.marks j ∙ ap (ltb j) (omega arith);
          count = ap (λ t. t.block_count) y.bitmap ∙ p7.filled.count;
        };
        root_inode = root ∙ is;
        catalog_inode = catalog ∙ ap (λ t. t + 1) is;
        root = (
          s8,
          read_at c s8 directory s8.superblock.root_inode k root (
              read_inode-here size Good block disk c (Inode.new k directory) k p4.bytes s8 trip
                m.good (omega arith) p4.serialized
                (kept k (omega arith) (omega arith)
                  ∙ p7.others k (omega arith) (λ e. absurd (omega arith))
                  ∙ p4.here)),
        );
        catalog = (
          s8,
          read_at c s8 system s8.superblock.catalog_inode (k + 1) catalog (
              read_inode-here size Good block disk c (Inode.new (k + 1) system) (k + 1) p7.bytes s8
                trip m.good (omega arith) p7.serialized
                (kept (k + 1) (omega arith) (omega arith) ∙ p7.here)),
        );
      }

  format_steps-IsFormatted :
      (c : Codecs) (s : UnaFs D)
      → IsRoundTrip c.inode
      → IsFilled size Good block disk s (system_blocks size)
      → system_end s ≡ system_blocks size
      → s.superblock ≡ Superblock.new size
      → system_blocks size + 2 ≤ size
      → ((e : FileSystemError) × (r : UnaFs D) × (format_steps c s ≡ (err e, r)) × IsRefusal c e)
        ⊎ ((s' : UnaFs D) × (format_steps c s ≡ (ok tt, s')) × IsFormatted c s')
  unfolding format_steps
  format_steps-IsFormatted c s trip f end start room =
      let k = system_blocks size in
      let (d, cleared, f1) = reset-IsFilled size Good block disk s k f (omega arith) in
      let s1 : UnaFs D = record s { journal = Wal.new; device = d } in
      let (s2, first, f2, a2) = allocate-IsFilled size Good block disk s1 k f1 (omega arith) in
      elim (write_inode-Placed size Good block disk c s1 s2 k (to_root k) (Inode.new k directory)
        (λ sb. refl) (new-id k directory) (omega arith) f2 a2) [
          | inl (e, r, bad, big) ↦
              inl (inode e, r, rw cleared (rw first (rw bad refl)), root_refused e big)
          | inr (s4, root, p4) ↦
              let (s5, second, f5, a5) =
                allocate-IsFilled size Good block disk s4 (k + 1) p4.filled (omega arith) in
              elim (write_inode-Placed size Good block disk c s4 s5 (k + 1) (to_catalog (k + 1))
                (Inode.new (k + 1) system) (λ sb. refl) (new-id (k + 1) system) (omega arith) f5
                a5) [
                  | inl (e, r, bad, big) ↦ inl (
                    inode e,
                    r,
                    rw cleared (rw first (rw root (rw second (rw bad refl)))),
                    catalog_refused e big,
                  )
                  | inr (s7, catalog, p7) ↦
                      elim (sync_metadata-Synced size Good block disk c s7 p7.filled.mounted) [
                        | inl (e, r, bad, same, big) ↦ inl (
                          superblock e,
                          r,
                          rw cleared (rw first (rw root (rw second (rw catalog (rw bad refl))))),
                          superblock_refused e (
                              subst (λ sb. DoesNotFit (c.superblock.serialize sb))
                                (p7.superblock
                                  ∙ ap (λ sb. to_catalog (k + 1) (take_free sb)) p4.superblock
                                  ∙ ap
                                      (λ sb.
                                        to_catalog (k + 1) (take_free (to_root k (take_free sb))))
                                      start
                                  ∙ two_taken (Superblock.new size) k)
                                big),
                        )
                        | inr (s8, synced, y) ↦ inr (
                          s8,
                          rw cleared (rw first (rw root (rw second (rw catalog (rw synced refl))))),
                          Placed-IsFormatted c s1 s4 s7 s8 k refl trip end room p4 p7 y,
                        )
                      ]
                ]
        ]

  -- On a disk with room for the system's blocks and two more, `format` fails only where the new root
  -- directory, the new catalog or the superblock after both were allocated does not serialise into a
  -- block, with an error of the inode or of the superblock. Otherwise the file system is mounted, the root
  -- directory and the catalog are the two blocks behind the system's and are read back as the new
  -- inodes they are, and exactly the blocks up to them are in use.
  pub format-IsFormatted :
      (c : Codecs) (d : D) (size_mb : ℕ)
      → IsRoundTrip c.inode
      → Good d
      → system_blocks size + 2 ≤ size
      → ((e : FileSystemError) × (format c d size_mb ≡ err e) × IsRefusal c e)
        ⊎ ((s : UnaFs D) × (format c d size_mb ≡ ok s) × IsFormatted c s)
  unfolding format
  format-IsFormatted c d size_mb trip good room =
      let from = blank-fresh size Good block disk c d size_mb good (omega arith) in
      let (m, end, marks, count) =
        fresh-IsMounted size Good block disk c d size_mb good (omega arith) in
      let filled : IsFilled size Good block disk (fresh size d) (system_blocks size) = record {
        mounted = m;
        marks = marks;
        count = count;
      } in
      elim (format_steps-IsFormatted c (fresh size d) trip filled end (fresh-superblock size d)
        room) [
          | inl (e, r, failed, refusal) ↦ inl (e, rw (from, format) (rw failed refl), refusal)
          | inr (s, done, formatted) ↦
              let run : format_steps c (blank c d size_mb) ≡ (ok tt, s) = rw from done in
              inr (s, rw (run, format) (ap (λ t. ok t.1) run), formatted)
        ]
