-- ===== src/Unafs/Bitmap/Persist.antt =====
-- Saving the bitmap and loading it again.
use una_os.Prelude.{
  ℕ, zero, suc, ◌+◌, ◌-◌, ◌*◌, ◌/◌, ◌%◌, ◌≤◌, ◌<◌, List, [], ◌∷◌, ◌++◌, ◌≡◌, refl, ap, ◌∙◌,
}
use una_os.Prelude.{
  arith, ◌⊎◌, inl, inr, Bool, true, false, Bool-cases, leb, leb→le, ◌==◌, if◌then◌else◌, append-nil,
  append_assoc,
}
use una_os.Prelude.{
  length, replicate, take, drop, take-drop, take_all, drop_all, length-take, length-drop,
}
use una_os.Prelude.{get_or-append_default, sym}
use una_os.Prelude.Bits.{bit}
use una_os.Prelude.Exec.{ok}
use una_os.Unafs.Storage.{BlockDevice, block_size, padded, padded_lem, length-padded}
use una_os.Unafs.Storage.Disk.{IsDisk}
use una_os.Unafs.Bitmap.{SpaceMap, div_ceil, load_blocks, load, save_chunks, save}
use una_os.Unafs.Bitmap.Used.{used}

abbrev zeros : ℕ → List ℕ
zeros n = replicate n 0

-- The first `b` bytes, padded to `b`, and the later ones, padded to `k`, are the whole, padded.
padding_long :
    (b k : ℕ) (bits : List ℕ)
    → b ≤ length bits
    → (take b bits ++ zeros (b - length (take b bits)))
        ++ (drop b bits ++ zeros (k - length (drop b bits)))
      ≡ bits ++ zeros (b + k - length bits)
padding_long b k bits h =
    let e : b - length (take b bits) ≡ 0 = omega (arith, length-take b bits) in
    let f : k - length (drop b bits) ≡ b + k - length bits = omega (arith, length-drop b bits) in
    rw (e, f)
      (simp append-nil (
        sym (append_assoc (take b bits) (drop b bits) (zeros (b + k - length bits)))
        ∙ ap (λ t. t ++ zeros (b + k - length bits)) (take-drop b bits)))

padding_short :
    (b : ℕ) (bits : List ℕ)
    → length bits ≤ b
    → (take b bits ++ zeros (b - length (take b bits)))
        ++ (drop b bits ++ zeros (0 - length (drop b bits)))
      ≡ bits ++ zeros (b + 0 - length bits)
padding_short b bits h =
    let e : b + 0 - length bits ≡ b - length bits = omega arith in
    rw (take_all b bits h, drop_all b bits h, e) (append-nil (bits ++ zeros (b - length bits)))

padding :
    (b k : ℕ) (bits : List ℕ)
    → (b ≤ length bits) ⊎ (k ≡ 0)
    → (take b bits ++ zeros (b - length (take b bits)))
        ++ (drop b bits ++ zeros (k - length (drop b bits)))
      ≡ bits ++ zeros (b + k - length bits)
padding b k bits h = elim (Bool-cases (leb b (length bits))) [
  | inl long ↦ padding_long b k bits (leb→le b (length bits) long)
  | inr short ↦ let e : k ≡ 0 = ground arith in rw e (padding_short b bits (ground arith))
]

module _ {D : Type 0} ⦃dev : BlockDevice D⦄ (size : ℕ) (Good : D → Type 0) (block : D → ℕ → List ℕ)
    (disk : IsDisk size Good block) where
  -- The device after `bits` were saved to the `count` blocks from `id` on.
  pub record Saved (d d' : D) (id count : ℕ) (bits : List ℕ) : Type 0 where
    pub good : Good d'
    pub others : (j : ℕ) → j < size → (j < id) ⊎ (id + count ≤ j) → block d' j ≡ block d j
    pub loads :
        load_blocks id count d' ≡ (ok (bits ++ replicate (count * block_size - length bits) 0), d')

  save_step :
      (id c : ℕ) (chunk bits : List ℕ) (fuel : ℕ) (d d1 d2 : D)
      → id < size
      → length chunk ≤ block_size
      → dev.write_block id (padded chunk) d ≡ (ok tt, d1)
      → ((j : ℕ) → j < size → block d1 j ≡ (if id == j then padded chunk else block d j))
      → save_chunks fuel (id + 1) bits d1 ≡ (ok tt, d2)
      → Saved d1 d2 (id + 1) c bits
      → load_blocks id (suc c) d2
        ≡ (ok (padded chunk ++ (bits ++ zeros (c * block_size - length bits))), d2)
  unfolding load_blocks
  save_step id c chunk bits fuel d d1 d2 inside w wrote others saved s =
      let kept : block d2 id ≡ padded chunk =
        s.others id inside (inl (omega arith)) ∙ others id inside ∙ ground arith in
      rw (disk.read d2 id s.good inside, kept, s.loads)

  whole :
      (c : ℕ) (bits : List ℕ)
      → suc c ≡ div_ceil (length bits) block_size
      → padded (take block_size bits)
          ++ (drop block_size bits ++ zeros (c * block_size - length (drop block_size bits)))
        ≡ bits ++ zeros (suc c * block_size - length bits)
  whole c bits e =
      ap
        (λ t. t ++ (drop block_size bits ++ zeros (c * block_size - length (drop block_size bits))))
        (padded_lem (take block_size bits))
      ∙ padding block_size (c * block_size) bits (cut (leb block_size (length bits)) refl)
      ∙ ap (λ t. bits ++ zeros t) (omega arith)
    where
      cut :
          (v : Bool)
          → leb block_size (length bits) ≡ v
          → (block_size ≤ length bits) ⊎ (c * block_size ≡ 0)
      cut true h = inl (leb→le block_size (length bits) h)
      cut false h = inr (ground arith)

  saved :
      (fuel id count : ℕ) (bits : List ℕ) (d : D)
      → length bits ≤ fuel
      → count ≡ div_ceil (length bits) block_size
      → id + count ≤ size
      → Good d
      → (d' : D) × (save_chunks fuel id bits d ≡ (ok tt, d')) × Saved d d' id count bits
  unfolding save_chunks load_blocks
  saved fuel id zero [] d h e fits good =
      (d, refl, record { good = good; others = λ j k o. refl; loads = refl })
  saved fuel id (suc c) [] d h e fits good = absurd (omega arith)
  saved zero id count (b ∷ bits) d h e fits good = absurd (omega arith)
  saved (suc fuel) id zero (b ∷ bits) d h e fits good = absurd (omega arith)
  saved (suc fuel) id (suc c) (b ∷ bits) d h e fits good =
      let chunk : List ℕ = take block_size (b ∷ bits) in
      let rest : List ℕ = drop block_size (b ∷ bits) in
      let small : length chunk ≤ block_size = omega (arith, length-take block_size (b ∷ bits)) in
      let left : length rest ≡ suc (length bits) - block_size = length-drop block_size (b ∷ bits) in
      let (d1, wrote, good1, holds) =
        disk.write d id (padded chunk) good (omega arith) (length-padded chunk small) in
      let (d2, rest_saved, s) =
        saved fuel (id + 1) c rest d1 (omega arith) (omega arith) (omega arith) good1 in
      (
        d2,
        rw (wrote, save_chunks) rest_saved,
        record {
          good = s.good;
          others = λ j k o. s.others j k (outside j o) ∙ holds j k ∙ elsewhere j o d (padded chunk);
          loads =
              save_step id c chunk rest fuel d d1 d2 (omega arith) small wrote holds rest_saved s
              ∙ ap (λ t. (ok t, d2)) (whole c (b ∷ bits) e);
        },
      )
    where
      outside : (j : ℕ) → (j < id) ⊎ (id + suc c ≤ j) → (j < id + 1) ⊎ (id + 1 + c ≤ j)
      outside j (inl l) = inl (omega arith)
      outside j (inr r) = inr (omega arith)

      elsewhere :
          (j : ℕ)
          → (j < id) ⊎ (id + suc c ≤ j)
          → (d : D) (new : List ℕ) → (if id == j then new else block d j) ≡ block d j
      elsewhere j (inl l) d new = ground arith
      elsewhere j (inr r) d new = ground arith

  -- On a disk with room for the bitmap, `save` succeeds; `load` of the same blocks then succeeds and
  -- gives a map with the same blocks in use, over as many blocks as the loaded bytes have bits. All
  -- blocks outside the bitmap region keep their content.
  pub load-save :
      (m : SpaceMap) (start : ℕ) (d : D)
      → start + div_ceil (length m.bits) block_size ≤ size
      → Good d
      → (d' : D) × (m' : SpaceMap) × (save start m d ≡ (ok tt, d'))
        × (load start (div_ceil (length m.bits) block_size) d' ≡ (ok m', d'))
        × ((j : ℕ) → used m' j ≡ used m j)
        × (m'.block_count ≡ div_ceil (length m.bits) block_size * block_size * 8)
        × Good d'
        × ((j : ℕ)
            → j < size
            → (j < start) ⊎ (start + div_ceil (length m.bits) block_size ≤ j)
            → block d' j ≡ block d j)
  unfolding save load
  load-save m start d fits good =
      let count : ℕ = div_ceil (length m.bits) block_size in
      let (d', done, s) = saved (length m.bits) start count m.bits d (omega arith) refl fits good in
      (
        d',
        record {
          bits = m.bits ++ zeros (count * block_size - length m.bits);
          block_count = count * block_size * 8;
        },
        done,
        rw (s.loads, load),
        λ j.
            ap (λ t. bit t (j % 8))
              (get_or-append_default {A = ℕ} m.bits (count * block_size - length m.bits) (j / 8) 0),
        refl,
        s.good,
        s.others,
      )
