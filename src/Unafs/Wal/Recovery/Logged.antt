-- ===== src/Unafs/Wal/Recovery/Logged.antt =====
-- libs/unafs/src/wal.rs, log: what one call of it writes to the disk, and where.
use una_os.Prelude.{ℕ, ◌+◌, ◌-◌, ◌*◌, ◌/◌, ◌%◌, ◌≤◌, ◌<◌, ◌≢◌, List, [], ◌≡◌, ◌⊎◌, refl, arith, ◌∙◌}
use una_os.Prelude.{ap, sym, inl, inr, Bool-cases, ltb, ltb→le, le→ltb, length, slice, splice}
use una_os.Prelude.{to_le_bytes, length-to_le_bytes, length-splice}
use una_os.Prelude.{slice-splice_self, slice-splice_before}
use una_os.Prelude.Exec.{ok}
use una_os.Unafs.Storage.{BlockDevice, block_size, zero_block, padded-nil, length-padded}
use una_os.Unafs.Storage.Disk.{IsDisk}
use una_os.Unafs.Wal.{Journal, journal_blocks, journal_start, make_room, put_entry, log_bytes}
use una_os.Unafs.Wal.Append.{log_here, log_next}
use una_os.Unafs.Wal.Recovery.Write.{with_entry, put_entry_lem}

word-with_entry :
    (old : List ℕ) (at : ℕ) (bytes : List ℕ)
    → at + (8 + length bytes) ≤ length old
    → slice (with_entry old at bytes) at 8 ≡ to_le_bytes 8 (length bytes)
word-with_entry old at bytes h =
    let word : List ℕ = to_le_bytes 8 (length bytes) in
    let w : length word ≡ 8 = length-to_le_bytes 8 (length bytes) in
    slice-splice_before (splice old at word) (at + 8) at 8 bytes (omega arith)
      (omega (arith, length-splice old at word (omega arith)))
    ∙ slice-splice_self old at 8 word (omega arith) (sym w)

body-with_entry :
    (old : List ℕ) (at : ℕ) (bytes : List ℕ)
    → at + (8 + length bytes) ≤ length old
    → slice (with_entry old at bytes) (at + 8) (length bytes) ≡ bytes
body-with_entry old at bytes h =
    let word : List ℕ = to_le_bytes 8 (length bytes) in
    let w : length word ≡ 8 = length-to_le_bytes 8 (length bytes) in
    slice-splice_self (splice old at word) (at + 8) (length bytes) bytes
      (omega (arith, length-splice old at word (omega arith))) refl

module _ {D : Type 0} ⦃dev : BlockDevice D⦄ (size : ℕ) (Good : D → Type 0)
    (block : D → ℕ → List ℕ) where
  -- An entry stands on the disk: behind its length in eight bytes, inside one block of the journal
  -- region, and the next entry goes behind it. Of the other blocks only the journal's first, which a
  -- reset clears, may differ.
  pub record Logged (bytes : List ℕ) (d : D) (j' : Journal) (d' : D) : Type 0 where
    pub good : Good d'
    pub id : ℕ
    pub at : ℕ
    pub behind_super : journal_start ≤ id
    pub in_block : at + (8 + length bytes) ≤ block_size
    pub in_region :
        (id - journal_start) * block_size + at + (8 + length bytes) ≤ journal_blocks * block_size
    pub next : j'.write_offset ≡ (id - journal_start) * block_size + at + (8 + length bytes)
    pub word : slice (block d' id) at 8 ≡ to_le_bytes 8 (length bytes)
    pub body : slice (block d' id) (at + 8) (length bytes) ≡ bytes
    pub others : (k : ℕ) → k < size → k ≢ id → k ≢ journal_start → block d' k ≡ block d k

  module _ (disk : IsDisk size Good block) (room : journal_start + journal_blocks ≤ size)
      (bytes : List ℕ) where
    -- After `make_room` the entry fits the region that is left.
    make_room-fits :
        (j : Journal) (d : D)
        → Good d
        → 8 + length bytes ≤ block_size
        → (j' : Journal) × (d' : D) × (make_room bytes (j, d) ≡ (ok tt, (j', d')))
          × Good d'
          × (j'.write_offset + (8 + length bytes) ≤ journal_blocks * block_size)
          × ((j'.write_offset ≡ j.write_offset) ⊎ (j'.write_offset ≡ 0))
          × ((k : ℕ) → k < size → k ≢ journal_start → block d' k ≡ block d k)
    unfolding make_room
    make_room-fits j d good h =
        elim (Bool-cases
          (ltb (journal_blocks * block_size) (j.write_offset + (8 + length bytes)))) [
            | inl over ↦
                let small : length zero_block ≡ block_size =
                  ap length (sym padded-nil) ∙ length-padded [] (omega arith) in
                let (d', wrote, good', holds) =
                  disk.write d journal_start zero_block good (omega arith) small in
                (
                  record { write_offset = 0 },
                  d',
                  rw (over, make_room) (rw wrote refl),
                  good',
                  omega arith,
                  inr refl,
                  λ k lt ne. ground (arith, holds k lt, ne),
                )
            | inr fits ↦
                (j, d, rw (fits, make_room) refl, good, ltb→le _ _ fits, inl refl, λ k lt ne. refl)
          ]

    put_entry-Logged :
        (j : Journal) (d : D)
        → Good d
        → j.write_offset % block_size + (8 + length bytes) ≤ block_size
        → j.write_offset + (8 + length bytes) ≤ journal_blocks * block_size
        → (s' : Journal × D) × (put_entry bytes (j, d) ≡ (ok tt, s')) × Logged bytes d s'.0 s'.1
    put_entry-Logged j d good fits inside =
        let id = j.write_offset / block_size + 1 in
        let at = j.write_offset % block_size in
        let (d', put, good', holds) =
          put_entry_lem size Good block disk bytes j d id at good (omega arith) (omega arith)
            (omega arith) fits in
        let width : length (block d id) ≡ block_size = disk.width d id good (omega arith) in
        let here : block d' id ≡ with_entry (block d id) at bytes =
          ground (arith, holds id (omega arith)) in
        (
          (record { write_offset = j.write_offset + (8 + length bytes) }, d'),
          put,
          record {
            good = good';
            id = id;
            at = at;
            behind_super = omega arith;
            in_block = fits;
            in_region = omega arith;
            next = omega arith;
            word =
                ap (λ t. slice t at 8) here ∙ word-with_entry (block d id) at bytes (omega arith);
            body =
                ap (λ t. slice t (at + 8) (length bytes)) here
                ∙ body-with_entry (block d id) at bytes (omega arith);
            others = λ k lt ne first. ground (arith, holds k lt, ne);
          },
        )

    Logged-later :
        (d d1 : D) (j' : Journal) (d' : D)
        → ((k : ℕ) → k < size → k ≢ journal_start → block d1 k ≡ block d k)
        → Logged bytes d1 j' d'
        → Logged bytes d j' d'
    Logged-later d d1 j' d' same l = record {
      good = l.good;
      id = l.id;
      at = l.at;
      behind_super = l.behind_super;
      in_block = l.in_block;
      in_region = l.in_region;
      next = l.next;
      word = l.word;
      body = l.body;
      others = λ k lt ne first. l.others k lt ne first ∙ same k lt first;
    }

    -- On a disk that holds the journal region, an entry that fits a block with its length is written,
    -- from any write offset, after two calls at most: inside one block of the region, its length in
    -- front of it, and the write offset moves behind it. Of the other blocks at most the first of the
    -- region has changed.
    pub log_bytes-Logged :
        (s : Journal × D)
        → Good s.1
        → 8 + length bytes ≤ block_size
        → (s' : Journal × D) × (log_bytes 2 bytes s ≡ (ok tt, s')) × Logged bytes s.1 s'.0 s'.1
    log_bytes-Logged (j, d) good h =
        let (j1, d1, room1, good1, fits1, at1, same1) = make_room-fits j d good h in
        elim (Bool-cases (ltb block_size (j1.write_offset % block_size + (8 + length bytes)))) [
          | inr here ↦
              let (s', put, l) = put_entry-Logged j1 d1 good1 (ltb→le _ _ here) fits1 in
              (
                s',
                log_here 1 bytes (j, d) (j1, d1) room1 here ∙ put,
                Logged-later d d1 s'.0 s'.1 same1 l,
              )
          | inl over ↦
              let j2 : Journal = record {
                write_offset = (j1.write_offset / block_size + 1) * block_size;
              } in
              let (j3, d3, room3, good3, fits3, at3, same3) = make_room-fits j2 d1 good1 h in
              let start : j3.write_offset % block_size ≡ 0 = ground (arith, at3) in
              let (s', put, l) = put_entry-Logged j3 d3 good3 (omega arith) fits3 in
              (
                s',
                log_next 1 bytes (j, d) (j1, d1) room1 over
                    ∙ log_here 0 bytes (j2, d1) (j3, d3) room3 (le→ltb _ _ (omega arith))
                    ∙ put,
                Logged-later d d3 s'.0 s'.1 (λ k lt ne. same3 k lt ne ∙ same1 k lt ne) l,
              )
        ]
