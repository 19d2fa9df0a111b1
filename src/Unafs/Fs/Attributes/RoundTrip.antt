-- ===== src/Unafs/Fs/Attributes/RoundTrip.antt =====
-- What was stored as a large attribute is read back: allocate_and_write_extents, then
-- read_from_extents, of libs/unafs/src/fs.rs.
use una_os.Prelude.{
  ℕ, zero, suc, ◌+◌, ◌-◌, ◌%◌, ◌≤◌, ◌<◌, ◌≡◌, ◌⊎◌, refl, ap, sym, ◌∙◌, arith, inl, inr, min,
}
use una_os.Prelude.{List, [], ◌∷◌, ◌++◌, some, length, take, drop, slice, All, All-append}
use una_os.Prelude.{length-take, length-drop, take-drop, take-append_exact, append_assoc}
use una_os.Prelude.Exec.{ok, err}
use una_os.Unafs.Storage.{BlockDevice, block_size, padded, padded_lem}
use una_os.Unafs.Storage.Disk.{IsDisk}
use una_os.Unafs.Inode.{Extent, ExtentList}
use una_os.Unafs.Codec.{DoesNotFit}
use una_os.Unafs.Superblock.{SuperblockError}
use una_os.Unafs.Fs.{UnaFs, Codecs, no_space, superblock}
use una_os.Unafs.Fs.Data.{find_block, read_loop, read_from_extents}
use una_os.Unafs.Fs.Mounted.{IsMounted, IsFull, Kept, Kept-trans, sync_metadata-Synced}
use una_os.Unafs.Fs.Attributes.{allocate_and_write_extents, total_length}
use una_os.Unafs.Fs.Attributes.Stored.{Stores, Stores-Kept, extents_loop-Stores}

-- Extents that end at `offset` or before it.
abbrev EndsBy : ℕ → ExtentList → Type 0
EndsBy offset = All (λ e. e.logical_offset + e.length ≤ offset)

ends_later : (es : ExtentList) (offset n : ℕ) → EndsBy offset es → EndsBy (offset + n) es
ends_later [] offset n h = tt
ends_later (e ∷ es) offset n h = (omega (arith, h.0), ends_later es offset n h.1)

find_block-here :
    (before : ExtentList) (e : Extent) (es : ExtentList) (offset : ℕ)
    → EndsBy offset before
    → e.logical_offset ≡ offset
    → 0 < e.length
    → find_block (before ++ (e ∷ es)) offset ≡ some e.physical_block
unfolding find_block
find_block-here [] e es offset ends at pos = ground arith
find_block-here (e' ∷ before) e es offset ends at pos =
    ground (arith, find_block-here before e es offset ends.1 at pos, ends.0)

slice-padded : (n : ℕ) (front : List ℕ) → n ≡ length front → slice (padded front) 0 n ≡ front
unfolding slice
slice-padded n front e = rw (padded_lem front) (take-append_exact front _ n e)

module _ {D : Type 0} ⦃dev : BlockDevice D⦄ (size : ℕ) (Good : D → Type 0) (block : D → ℕ → List ℕ)
    (disk : IsDisk size Good block) (c : Codecs) where
  read_loop-nil :
      (fuel : ℕ) (chunks : ExtentList) (offset : ℕ) (s : UnaFs D)
      → read_loop c fuel chunks offset 0 s ≡ (ok [], s)
  unfolding read_loop
  read_loop-nil zero chunks offset s = refl
  read_loop-nil (suc fuel) chunks offset s = refl

  read_loop-block :
      (fuel : ℕ) (chunks : ExtentList) (offset left id n : ℕ) (bytes rest : List ℕ) (s : UnaFs D)
      → find_block chunks offset ≡ some id
      → dev.read_block id block_size s.device ≡ (ok bytes, s.device)
      → min (block_size - offset % block_size) (suc left) ≡ n
      → read_loop c fuel chunks (offset + n) (suc left - n) s ≡ (ok rest, s)
      → read_loop c (suc fuel) chunks offset (suc left) s
        ≡ (ok (slice bytes (offset % block_size) n ++ rest), s)
  unfolding read_loop slice
  read_loop-block fuel chunks offset left id n bytes rest s found read e later =
      rw (found, read_loop) (rw (e, read, later) refl)

  read_loop-Stores :
      (fuel : ℕ) (before es : ExtentList) (logical : ℕ) (bytes : List ℕ) (s : UnaFs D)
      → Good s.device
      → Stores size Good block disk s logical es bytes
      → length bytes ≤ fuel
      → (0 < length bytes → logical % block_size ≡ 0)
      → EndsBy logical before
      → read_loop c fuel (before ++ es) logical (length bytes) s ≡ (ok bytes, s)
  unfolding Stores
  read_loop-Stores fuel before [] logical bytes s good st h start ends =
      rw st (read_loop-nil fuel (before ++ []) logical s)
  read_loop-Stores fuel before (e ∷ es) logical [] s good (st, rest) h start ends =
      absurd (omega (arith, st.length, st.some_byte))
  read_loop-Stores zero before (e ∷ es) logical (b ∷ bytes) s good st h start ends =
      absurd (omega arith)
  read_loop-Stores (suc fuel) before (e ∷ es) logical (b ∷ bytes) s good (st, rest) h start ends =
      let left = length (b ∷ bytes) in
      let later = drop e.length (b ∷ bytes) in
      let at0 : logical % block_size ≡ 0 = start (omega arith) in
      let whole : min (block_size - 0) left ≡ e.length = sym st.length in
      let count : length later ≡ left - e.length = length-drop e.length (b ∷ bytes) in
      let front : slice (block s.device e.physical_block) 0 e.length ≡ take e.length (b ∷ bytes) =
        ap (λ t. slice t 0 e.length) st.content
        ∙ slice-padded e.length (take e.length (b ∷ bytes))
            (omega (arith, length-take e.length (b ∷ bytes), st.length)) in
      let again =
        read_loop-Stores fuel (before ++ (e ∷ [])) es (logical + e.length) later s good rest
          (omega (arith, st.some_byte)) (λ more. omega (arith, st.length))
          (All-append _ before (e ∷ []) (ends_later before logical e.length ends)
            (omega (arith, st.logical_offset), tt)) in
      read_loop-block fuel (before ++ (e ∷ es)) logical (length bytes) e.physical_block e.length
        (block s.device e.physical_block) later s
        (find_block-here before e es logical ends st.logical_offset st.some_byte)
        (disk.read s.device e.physical_block good st.inside) (rw (at0, whole) refl)
        (rw (← count, ← append_assoc before (e ∷ []) es) again)
      ∙ rw (at0, front) (ap (λ t. (ok t, s)) (take-drop e.length (b ∷ bytes)))

  total_length-Stores :
      (s : UnaFs D) (logical : ℕ) (es : ExtentList) (bytes : List ℕ)
      → Stores size Good block disk s logical es bytes
      → total_length es ≡ length bytes
  unfolding Stores
  total_length-Stores s logical [] bytes st = rw st refl
  total_length-Stores s logical (e ∷ es) bytes (st, rest) = omega (
    arith,
    total_length-Stores s (logical + e.length) es (drop e.length bytes) rest,
    length-drop e.length bytes,
    st.length,
  )

  read_from_extents-Stores :
      (es : ExtentList) (bytes : List ℕ) (s : UnaFs D)
      → Good s.device
      → Stores size Good block disk s 0 es bytes
      → read_from_extents c es 0 (total_length es) (total_length es) s ≡ (ok bytes, s)
  unfolding read_from_extents
  read_from_extents-Stores es bytes s good st =
      let total = total_length-Stores s 0 es bytes st in
      let all : min (total_length es) (total_length es - 0) ≡ length bytes = omega arith in
      rw all (
        read_loop-Stores (length bytes) [] es 0 bytes s good st (omega arith) (λ h. omega arith) tt)

  -- On a mounted disk, storing the bytes of a large attribute fails with no space, and then every block
  -- of the disk is in use, or with an error of the superblock, and then the superblock does not
  -- serialise into a block, or it returns extents from which exactly those bytes are read
  -- back; what was in use before is still in use and its blocks behind the system's are unchanged.
  pub read-allocate_and_write_extents :
      (bytes : List ℕ) (s : UnaFs D)
      → IsMounted size Good block disk s
      → ((s' : UnaFs D) × (((allocate_and_write_extents c bytes s ≡ (err no_space, s'))
              × IsFull s'.bitmap)
            ⊎ ((e : SuperblockError) × (allocate_and_write_extents c bytes s
                  ≡ (err (superblock e), s'))
                × DoesNotFit (c.superblock.serialize s'.superblock))))
        ⊎ ((extents : ExtentList) × (s' : UnaFs D) × (allocate_and_write_extents c bytes s
              ≡ (ok extents, s'))
            × (read_from_extents c extents 0 (total_length extents) (total_length extents) s'
                ≡ (ok bytes, s'))
            × Kept size Good block disk s s')
  unfolding allocate_and_write_extents
  read-allocate_and_write_extents bytes s m =
      elim (extents_loop-Stores size Good block disk c (length bytes) 0 bytes s m (omega arith)) [
        | inl (s1, full, every) ↦ inl (s1, inl (rw full refl, every))
        | inr (extents, s1, stored, kept, st) ↦
            elim (sync_metadata-Synced size Good block disk c s1 kept.mounted) [
              | inl (e, s2, bad, same, big) ↦
                  inl (s2, inr (e, rw (stored) (rw bad refl), rw same big))
              | inr (s2, synced, sync) ↦
                  let kept' = sync.kept in
                  let st' = Stores-Kept size Good block disk s1 s2 0 extents bytes kept' st in
                  inr (
                    extents,
                    s2,
                    rw stored (rw synced refl),
                    read_from_extents-Stores extents bytes s2 kept'.mounted.good st',
                    Kept-trans size Good block disk s s1 s2 kept kept',
                  )
            ]
      ]
