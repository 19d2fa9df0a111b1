-- ===== src/Unafs/Wal/Recovery/Write.antt =====
-- What a call of `log` writes to the first block of the journal, and to the second.
use una_os.Prelude.{ℕ, ◌+◌, ◌-◌, ◌*◌, ◌/◌, ◌%◌, ◌≤◌, ◌<◌, List, ◌++◌, ◌≡◌, refl}
use una_os.Prelude.{ap, ◌∙◌, length, arith, replicate, append_assoc, length-append}
use una_os.Prelude.{◌==◌, if◌then◌else◌, splice, splice-append}
use una_os.Prelude.{to_le_bytes, length-to_le_bytes, length-splice}
use una_os.Prelude.Exec.{ok, resume}
use una_os.Unafs.Storage.{BlockDevice, block_size}
use una_os.Unafs.Storage.Disk.{IsDisk}
use una_os.Unafs.Wal.{Journal, journal_start, put_entry}
use una_os.Unafs.Wal.Frames.{frame}

-- The block after an entry was put at `at`.
abbrev pub with_entry : List ℕ → ℕ → List ℕ → List ℕ
with_entry old at bytes = splice (splice old at (to_le_bytes 8 (length bytes))) (at + 8) bytes

length-with_entry :
    (old : List ℕ) (at : ℕ) (bytes : List ℕ)
    → at + (8 + length bytes) ≤ length old
    → length (with_entry old at bytes) ≡ length old
length-with_entry old at bytes h =
    let w : length (to_le_bytes 8 (length bytes)) ≡ 8 = length-to_le_bytes 8 (length bytes) in
    let inner : length (splice old at (to_le_bytes 8 (length bytes))) ≡ length old =
      length-splice old at (to_le_bytes 8 (length bytes)) (omega arith) in
    length-splice (splice old at (to_le_bytes 8 (length bytes))) (at + 8) bytes (omega arith)
    ∙ inner

-- An entry put behind the frames of a block is one more frame.
pub with_entry-frames :
    (used : List ℕ) (n : ℕ) (bytes : List ℕ)
    → with_entry (used ++ replicate n 0) (length used) bytes
      ≡ (used ++ frame bytes) ++ replicate (n - (8 + length bytes)) 0
with_entry-frames used n bytes =
    let word : List ℕ = to_le_bytes 8 (length bytes) in
    let w : length word ≡ 8 = length-to_le_bytes 8 (length bytes) in
    ap (λ t. splice t (length used + 8) bytes) (splice-append used 0 n word (length used) refl)
    ∙ splice-append (used ++ word) 0 (n - length word) bytes (length used + 8)
        (omega (arith, length-append used word))
    ∙ ap (λ t. t ++ replicate (n - length word - length bytes) 0) (append_assoc used word bytes)
    ∙ ap (λ t. (used ++ frame bytes) ++ replicate t 0) (omega arith)

module _ {D : Type 0} ⦃dev : BlockDevice D⦄ (size : ℕ) (Good : D → Type 0) (block : D → ℕ → List ℕ)
    (disk : IsDisk size Good block) where
  pub put_entry_lem :
      (bytes : List ℕ) (j : Journal) (d : D) (id at : ℕ)
      → Good d
      → j.write_offset ≡ (id - 1) * block_size + at
      → 1 ≤ id
      → id < size
      → at + (8 + length bytes) ≤ block_size
      → (d' : D) × (put_entry bytes (j, d)
          ≡ (ok tt, (record { write_offset = j.write_offset + (8 + length bytes) }, d')))
        × Good d'
        × ((k : ℕ)
            → k < size
            → block d' k ≡ (if id == k then with_entry (block d id) at bytes else block d k))
  unfolding put_entry
  put_entry_lem bytes j d id at good off pos inside fits =
      let e : j.write_offset % block_size ≡ at = omega arith in
      let f : journal_start + j.write_offset / block_size ≡ id = omega arith in
      let (d', wrote, good', holds) =
        disk.write d id (with_entry (block d id) at bytes) good inside (
          length-with_entry (block d id) at bytes (rw (disk.width d id good inside) fits)
          ∙ disk.width d id good inside) in
      (
        d',
        rw (e, f, put_entry) (rw (disk.read d id good inside, resume) (rw (wrote, resume))),
        good',
        holds,
      )
