-- ===== src/Unafs/Fs/Attributes/Stored.antt =====
-- Bytes that `allocate_and_write_extents` has stored: each extent holds the next bytes, in a block
-- that is in use.
use una_os.Prelude.{ℕ, zero, suc, ◌+◌, ◌≤◌, ◌<◌, ◌≡◌, ◌⊎◌, refl, ◌∙◌, arith, inl, inr, min}
use una_os.Prelude.{true, List, [], ◌∷◌, length, take, drop, length-take, length-drop}
use una_os.Prelude.Exec.{ok, err}
use una_os.Unafs.Storage.{BlockDevice, block_size, padded, length-padded}
use una_os.Unafs.Storage.Disk.{IsDisk}
use una_os.Unafs.Bitmap.Used.{used}
use una_os.Unafs.Inode.{Extent, ExtentList}
use una_os.Unafs.Fs.{UnaFs, Codecs, no_space}
use una_os.Unafs.Fs.Mounted.{system_end, IsMounted, IsFull, Kept, Kept-refl, Kept-trans}
use una_os.Unafs.Fs.Mounted.{allocate_inode_block-Allocated, written-Kept}
use una_os.Unafs.Fs.Attributes.{extents_loop}

module _ {D : Type 0} ⦃dev : BlockDevice D⦄ (size : ℕ) (Good : D → Type 0) (block : D → ℕ → List ℕ)
    (disk : IsDisk size Good block) where
  -- One extent, at `logical`, with the first of the bytes.
  pub record IsStored (s : UnaFs D) (logical : ℕ) (e : Extent) (bytes : List ℕ) : Type 0 where
    pub logical_offset : e.logical_offset ≡ logical
    pub some_byte : 0 < e.length
    pub length : e.length ≡ min block_size (length bytes)
    pub inside : e.physical_block < size
    pub in_use : used s.bitmap e.physical_block ≡ true
    pub beyond : system_end s ≤ e.physical_block
    pub content : block s.device e.physical_block ≡ padded (take e.length bytes)

  unfoldable pub Stores : UnaFs D → ℕ → ExtentList → List ℕ → Type 0
  Stores s logical [] bytes = bytes ≡ []
  Stores s logical (e ∷ es) bytes =
      IsStored s logical e bytes × Stores s (logical + e.length) es (drop e.length bytes)

  IsStored-Kept :
      (s s' : UnaFs D) (logical : ℕ) (e : Extent) (bytes : List ℕ)
      → Kept size Good block disk s s'
      → IsStored s logical e bytes
      → IsStored s' logical e bytes
  IsStored-Kept s s' logical e bytes k st = record {
    logical_offset = st.logical_offset;
    some_byte = st.some_byte;
    length = st.length;
    inside = st.inside;
    in_use = k.in_use e.physical_block st.in_use;
    beyond = omega (arith, k.same_end, st.beyond);
    content = k.blocks e.physical_block st.inside st.beyond st.in_use ∙ st.content;
  }

  pub Stores-Kept :
      (s s' : UnaFs D) (logical : ℕ) (es : ExtentList) (bytes : List ℕ)
      → Kept size Good block disk s s'
      → Stores s logical es bytes
      → Stores s' logical es bytes
  unfolding Stores
  Stores-Kept s s' logical [] bytes k st = st
  Stores-Kept s s' logical (e ∷ es) bytes k (st, rest) = (
    IsStored-Kept s s' logical e bytes k st,
    Stores-Kept s s' (logical + e.length) es (drop e.length bytes) k rest,
  )

  -- The loop stores all bytes, or the disk is full.
  pub extents_loop-Stores :
      (c : Codecs) (fuel logical : ℕ) (bytes : List ℕ) (s : UnaFs D)
      → IsMounted size Good block disk s
      → length bytes ≤ fuel
      → ((s' : UnaFs D) × (extents_loop c fuel logical bytes s ≡ (err no_space, s'))
          × IsFull s'.bitmap)
        ⊎ ((extents : ExtentList) × (s' : UnaFs D) × (extents_loop c fuel logical bytes s
              ≡ (ok extents, s'))
            × Kept size Good block disk s s'
            × Stores s' logical extents bytes)
  unfolding extents_loop Stores
  extents_loop-Stores c zero logical [] s m h =
      inr ([], s, refl, Kept-refl size Good block disk s m, refl)
  extents_loop-Stores c (suc fuel) logical [] s m h =
      inr ([], s, refl, Kept-refl size Good block disk s m, refl)
  extents_loop-Stores c zero logical (b ∷ bytes) s m h = absurd (omega arith)
  extents_loop-Stores c (suc fuel) logical (b ∷ bytes) s m h =
      elim (allocate_inode_block-Allocated size Good block disk s m) [
        | inl (s', full, every) ↦ inl (s', rw (full, extents_loop) refl, every)
        | inr (id, s1, found, a) ↦
            let n = min block_size (length (b ∷ bytes)) in
            let front = take n (b ∷ bytes) in
            let width : length (padded front) ≡ block_size =
              length-padded front (omega (arith, length-take n (b ∷ bytes))) in
            let (d, wrote, good, content) =
              disk.write s1.device id (padded front) a.kept.mounted.good a.inside width in
            let s2 : UnaFs D = record s1 { device = d } in
            let kept : Kept size Good block disk s s2 =
              written-Kept size Good block disk s s1 id d a good
                (λ j lt ne. ground (arith, content j lt)) in
            elim (extents_loop-Stores c fuel (logical + n) (drop n (b ∷ bytes)) s2 kept.mounted
              (omega (arith, length-drop n (b ∷ bytes)))) [
                | inl (s', full, every) ↦
                    inl (s', rw (found, extents_loop) (rw (wrote) (rw (full) refl)), every)
                | inr (extents, s', rest, later, st) ↦
                    let e : Extent = record {
                      logical_offset = logical;
                      physical_block = id;
                      length = n;
                    } in
                    let here : IsStored s2 logical e (b ∷ bytes) = record {
                      logical_offset = refl;
                      some_byte = omega arith;
                      length = refl;
                      inside = a.inside;
                      in_use = a.now_used;
                      beyond = omega (arith, a.beyond, a.kept.same_end);
                      content = ground (arith, content id a.inside);
                    } in
                    inr (
                      e ∷ extents,
                      s',
                      rw (found, extents_loop) (rw wrote (rw rest refl)),
                      Kept-trans size Good block disk s s2 s' kept later,
                      (IsStored-Kept s2 s' logical e (b ∷ bytes) later here, st),
                    )
              ]
      ]
