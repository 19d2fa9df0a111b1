-- ===== src/Unafs/Fs/Mounted.antt =====
-- The invariant of a mounted file system on a disk, and what the steps that allocate and synchronise
-- keep of it.
use una_os.Prelude.{ℕ, ◌+◌, ◌≤◌, ◌<◌, ◌≡◌, ◌≢◌, ◌⊎◌, refl, ◌∙◌, arith, inl, inr, Option-cases}
use una_os.Prelude.{true, false, List, length, ◌==◌, if◌then◌else◌, ltb, Bool-cases}
use una_os.Prelude.Exec.{Result-cases, ok, err}
use una_os.Unafs.Storage.{BlockDevice, block_size, padded, length-padded}
use una_os.Unafs.Storage.Disk.{IsDisk}
use una_os.Unafs.Bitmap
use una_os.Unafs.Bitmap.{SpaceMap, div_ceil}
use una_os.Unafs.Bitmap.Used.{used, IsValid}
use una_os.Unafs.Bitmap.Alloc.{Allocates, allocate-Allocates, allocate-none}
use una_os.Unafs.Bitmap.Persist.{load-save}
use mathlib.Core.Path.{subst}
use una_os.Prelude.{Option, ap, sym}
use una_os.Unafs.Codec.{Codec, DoesNotFit}
use una_os.Unafs.Superblock.{Superblock, SuperblockError, to_bytes}
use una_os.Unafs.Fs.{UnaFs, Codecs, no_space, superblock, take_free}
use una_os.Unafs.Fs.{allocate_inode_block, sync_metadata}

-- The blocks before this one belong to the superblock, the journal and the bitmap.
abbrev pub system_end : {D : Type 0} → UnaFs D → ℕ
system_end s = s.superblock.bitmap_start + div_ceil (length s.bitmap.bits) block_size

-- The state after a block was allocated.
abbrev pub taken : {D : Type 0} → UnaFs D → UnaFs D
taken s = record s { superblock = take_free s.superblock; bitmap = (Bitmap.allocate s.bitmap).1 }

to_bytes-DoesNotFit :
    (codec : Codec Superblock) (sb : Superblock) (e : SuperblockError)
    → to_bytes codec sb ≡ err e
    → DoesNotFit (codec.serialize sb)
unfolding to_bytes
to_bytes-DoesNotFit codec sb e h = elim (Option-cases (codec.serialize sb)) [
  | inl bad ↦ rw bad tt
  | inr (written, w) ↦ rw w (ground arith)
]

-- Every block of the disk is in use.
abbrev pub IsFull : SpaceMap → Type 0
IsFull m = (j : ℕ) → j < m.block_count → used m j ≡ true

length-to_bytes :
    (codec : Codec Superblock) (sb : Superblock) (bytes : List ℕ)
    → to_bytes codec sb ≡ ok bytes
    → length bytes ≤ block_size
unfolding to_bytes
length-to_bytes codec sb bytes e = elim (Option-cases (codec.serialize sb)) [
  | inl bad ↦ absurd (ground arith)
  | inr (written, w) ↦ ground arith
]

module _ {D : Type 0} ⦃dev : BlockDevice D⦄ (size : ℕ) (Good : D → Type 0) (block : D → ℕ → List ℕ)
    (disk : IsDisk size Good block) where
  pub record IsMounted (s : UnaFs D) : Type 0 where
    pub good : Good s.device
    pub valid : IsValid s.bitmap
    pub in_disk : s.bitmap.block_count ≤ size
    pub behind_super : 1 ≤ s.superblock.bitmap_start
    pub room : system_end s ≤ size
    pub system : (j : ℕ) → j < system_end s → used s.bitmap j ≡ true

  -- A later state: what was in use still is, and its blocks behind the system's are as before.
  pub record Kept (s s' : UnaFs D) : Type 0 where
    pub mounted : IsMounted s'
    pub same_end : system_end s' ≡ system_end s
    pub in_use : (j : ℕ) → used s.bitmap j ≡ true → used s'.bitmap j ≡ true
    pub blocks :
        (j : ℕ)
        → j < size
        → system_end s ≤ j
        → used s.bitmap j ≡ true
        → block s'.device j ≡ block s.device j

  pub Kept-refl : (s : UnaFs D) → IsMounted s → Kept s s
  Kept-refl s m = record {
    mounted = m;
    same_end = refl;
    in_use = λ j h. h;
    blocks = λ j lt beyond h. refl;
  }

  pub Kept-trans : (s s' s'' : UnaFs D) → Kept s s' → Kept s' s'' → Kept s s''
  Kept-trans s s' s'' k k' = record {
    mounted = k'.mounted;
    same_end = k'.same_end ∙ k.same_end;
    in_use = λ j h. k'.in_use j (k.in_use j h);
    blocks = λ j lt beyond h.
        k'.blocks j lt (omega (arith, k.same_end)) (k.in_use j h) ∙ k.blocks j lt beyond h;
  }

  -- A block that was free and is now in use, outside the system's blocks.
  pub record Allocated (s : UnaFs D) (id : ℕ) (s' : UnaFs D) : Type 0 where
    pub kept : Kept s s'
    pub inside : id < size
    pub beyond : system_end s ≤ id
    pub was_free : used s.bitmap id ≡ false
    pub now_used : used s'.bitmap id ≡ true
    pub device : s'.device ≡ s.device
    pub lowest : (j : ℕ) → j < id → used s.bitmap j ≡ true
    pub marks : (j : ℕ) → used s'.bitmap j ≡ (if id == j then true else used s.bitmap j)
    pub superblock : s'.superblock ≡ take_free s.superblock
    pub count : s'.bitmap.block_count ≡ s.bitmap.block_count

  pub taken-Allocated :
      (s : UnaFs D) (id : ℕ)
      → IsMounted s
      → Allocates s.bitmap id (Bitmap.allocate s.bitmap).1
      → Allocated s id (taken s)
  taken-Allocated s id m a =
      let start : (take_free s.superblock).bitmap_start ≡ s.superblock.bitmap_start =
        ground arith in
      let same : system_end (taken s) ≡ system_end s = omega (arith, start, a.width) in
      let keep : (j : ℕ) → used s.bitmap j ≡ true → used (taken s).bitmap j ≡ true =
        λ j h. ground (arith, a.marks j, h) in
      record {
        kept = record {
          mounted = record {
            good = m.good;
            valid = a.valid;
            in_disk = omega (arith, a.count, m.in_disk);
            behind_super = omega (arith, start, m.behind_super);
            room = omega (arith, same, m.room);
            system = λ j h. keep j (m.system j (omega (arith, same)));
          };
          same_end = same;
          in_use = keep;
          blocks = λ j lt beyond h. refl;
        };
        inside = omega (arith, a.in_range, m.in_disk);
        beyond = beyond m a;
        was_free = a.was_free;
        now_used = ground (arith, a.marks id);
        device = refl;
        lowest = a.lowest;
        marks = a.marks;
        superblock = refl;
        count = a.count;
      }
    where
      beyond : IsMounted s → Allocates s.bitmap id (Bitmap.allocate s.bitmap).1 → system_end s ≤ id
      beyond m a = elim (Bool-cases (ltb id (system_end s))) [
        | inl low ↦ absurd (cc (m.system id (ground arith), a.was_free))
        | inr high ↦ ground arith
      ]

  pub allocate_inode_block-Allocated :
      (s : UnaFs D)
      → IsMounted s
      → ((s' : UnaFs D) × (allocate_inode_block s ≡ (err no_space, s')) × IsFull s'.bitmap)
        ⊎ ((id : ℕ) × (s' : UnaFs D) × (allocate_inode_block s ≡ (ok id, s')) × Allocated s id s')
  unfolding allocate_inode_block
  allocate_inode_block-Allocated s m = elim (Option-cases (Bitmap.allocate s.bitmap).0) [
    | inl full ↦
        let a = allocate-none s.bitmap m.valid in
        let kept : s.bitmap ≡ (Bitmap.allocate s.bitmap).1 =
          sym (ap (λ (p : Option ℕ × SpaceMap). p.1) (a.1.0 full)) in
        inl (
          record s { bitmap = (Bitmap.allocate s.bitmap).1 },
          rw (full, allocate_inode_block) refl,
          subst IsFull kept (a.0.0 full),
        )
    | inr (id, found) ↦ inr (
      id,
      taken s,
      rw (found, allocate_inode_block) refl,
      taken-Allocated s id m (allocate-Allocates s.bitmap id m.valid found),
    )
  ]

  -- A block is written that was free before.
  pub written-Kept :
      (s s1 : UnaFs D) (id : ℕ) (d : D)
      → Allocated s id s1
      → Good d
      → ((j : ℕ) → j < size → id ≢ j → block d j ≡ block s1.device j)
      → Kept s (record s1 { device = d })
  written-Kept s s1 id d a good same =
      let m = a.kept.mounted in
      record {
        mounted = record {
          good = good;
          valid = m.valid;
          in_disk = m.in_disk;
          behind_super = m.behind_super;
          room = m.room;
          system = m.system;
        };
        same_end = a.kept.same_end;
        in_use = a.kept.in_use;
        blocks =
            λ j lt beyond h. same j lt (λ e. cc (h, a.was_free, e)) ∙ a.kept.blocks j lt beyond h;
      }

  -- Only the device has changed.
  pub record Synced (s s' : UnaFs D) : Type 0 where
    pub kept : Kept s s'
    pub bitmap : s'.bitmap ≡ s.bitmap
    pub superblock : s'.superblock ≡ s.superblock

  -- `sync_metadata` writes the system's blocks and no other, or the superblock does not serialise.
  pub sync_metadata-Synced :
      (c : Codecs) (s : UnaFs D)
      → IsMounted s
      → ((e : SuperblockError) × (s' : UnaFs D) × (sync_metadata c s ≡ (err (superblock e), s'))
          × (s'.superblock ≡ s.superblock)
          × DoesNotFit (c.superblock.serialize s.superblock))
        ⊎ ((s' : UnaFs D) × (sync_metadata c s ≡ (ok tt, s')) × Synced s s')
  unfolding sync_metadata
  sync_metadata-Synced c s m =
      let (d, map, saved, loaded, alike, count, good, others) =
        load-save size Good block disk s.bitmap s.superblock.bitmap_start s.device m.room m.good in
      elim (Result-cases (to_bytes c.superblock s.superblock)) [
        | inr (e, bad) ↦ inl (
          e,
          record s { device = d },
          rw (saved, bad) refl,
          refl,
          to_bytes-DoesNotFit c.superblock s.superblock e bad,
        )
        | inl (bytes, fine) ↦
            let (d', wrote, good', content) =
              disk.write d 0 (padded bytes) good (omega (arith, m.room, m.behind_super))
                (length-padded bytes (length-to_bytes c.superblock s.superblock bytes fine)) in
            inr (
              record s { device = d' },
              rw (saved, fine, wrote) refl,
              record {
                kept = record {
                  mounted = record {
                    good = good';
                    valid = m.valid;
                    in_disk = m.in_disk;
                    behind_super = m.behind_super;
                    room = m.room;
                    system = m.system;
                  };
                  same_end = refl;
                  in_use = λ j h. h;
                  blocks = λ j lt beyond h.
                      ground (arith, content j lt, others j lt (inr beyond), m.behind_super);
                };
                bitmap = refl;
                superblock = refl;
              },
            )
      ]
