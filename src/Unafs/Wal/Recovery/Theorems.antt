-- ===== src/Unafs/Wal/Recovery/Theorems.antt =====
-- A log that is written and scanned: what recovery sees, and what it does not.
use una_os.Prelude.{ℕ, suc, ◌+◌, ◌-◌, ◌*◌, ◌/◌, ◌≤◌, ◌<◌, List, [], ◌∷◌, ◌++◌, ◌≡◌, refl}
use una_os.Prelude.{
  ap, sym, ◌∙◌, some, length, arith, replicate, append_assoc, append-nil, length-append,
}
use una_os.Prelude.{le→ltb, lt→ltb}
use una_os.Prelude.Exec.{ok, resume, ◌>>◌, bind-ok}
use una_os.Unafs.Storage.{
  BlockDevice, block_size, zero_block, padded-nil, padded_lem, length-padded,
}
use una_os.Unafs.Storage.Disk.{IsDisk}
use una_os.Unafs.Codec.{Codec, IsRoundTrip}
use una_os.Unafs.Wal.{Journal, JournalOp, none_open, is_dirty, reset, log, make_room}
use una_os.Unafs.Wal.{check_recovery, scan, journal_blocks, journal_start}
use una_os.Unafs.Wal.Append.{log_here, log_next}
use una_os.Unafs.Wal.Frames.{frame, length-frame}
use una_os.Unafs.Wal.Recovery.{Encoded, frames, IsEncoded, scan_all, log_all, frames-append}
use una_os.Prelude.{Bool, true, ◌↔◌}
use una_os.Unafs.Wal.Recovery.Opens.{LeavesOpen, scan_all-LeavesOpen}
use una_os.Unafs.Wal.Recovery.Scan.{scan-frames}
use una_os.Unafs.Wal.Recovery.Write.{with_entry, with_entry-frames, put_entry_lem}

length-le-frames : (ps : Encoded) → length ps ≤ length (frames ps)
length-le-frames [] = omega arith
length-le-frames ((op, bytes) ∷ ps) =
    omega (arith, length-le-frames ps, length-append (frame bytes) (frames ps), length-frame bytes)

module _ {D : Type 0} ⦃dev : BlockDevice D⦄ (size : ℕ) (Good : D → Type 0) (block : D → ℕ → List ℕ)
    (disk : IsDisk size Good block) (room : journal_start + journal_blocks ≤ size) where
  -- The journal's first block holds the frames of `ps` and zeros, and the next entry goes behind them.
  pub record InBlock (ps : Encoded) (j : Journal) (d : D) : Type 0 where
    pub good : Good d
    pub offset : j.write_offset ≡ length (frames ps)
    pub holds : block d 1 ≡ frames ps ++ replicate (block_size - length (frames ps)) 0

  reset-InBlock :
      (j : Journal) (d : D)
      → Good d
      → (d' : D) × (reset (j, d) ≡ (ok tt, (record { write_offset = 0 }, d')))
        × InBlock [] (record { write_offset = 0 }) d'
  unfolding reset
  reset-InBlock j d good =
      let small : length zero_block ≡ block_size =
        ap length (sym padded-nil) ∙ length-padded [] (omega arith) in
      let (d', wrote, good', holds) =
        disk.write d journal_start zero_block good (omega arith) small in
      (
        d',
        rw (wrote, reset),
        record {
          good = good';
          offset = refl;
          holds = holds 1 (omega arith) ∙ sym padded-nil ∙ padded_lem [];
        },
      )

  module _ (codec : Codec JournalOp) where
    -- `log` where the entry fits the first block.
    log-InBlock :
        (ps : Encoded) (op : JournalOp) (bytes : List ℕ) (j : Journal) (d : D)
        → InBlock ps j d
        → codec.serialize op ≡ some bytes
        → 0 < length bytes
        → length (frames ps) + (8 + length bytes) ≤ block_size
        → (j' : Journal) × (d' : D) × (log codec op (j, d) ≡ (ok tt, (j', d')))
          × InBlock (ps ++ ((op, bytes) ∷ [])) j' d'
    unfolding log make_room
    log-InBlock ps op bytes j d inside ser pos fits =
        let used : List ℕ = frames ps in
        let all : frames (ps ++ ((op, bytes) ∷ [])) ≡ used ++ frame bytes =
          frames-append ps ((op, bytes) ∷ []) ∙ ap (λ t. used ++ t) (append-nil (frame bytes)) in
        let width : length (frames (ps ++ ((op, bytes) ∷ []))) ≡ length used + (8 + length bytes) =
          ap length all ∙ omega (arith, length-append used (frame bytes), length-frame bytes) in
        let (d', put, good', holds) =
          put_entry_lem size Good block disk bytes j d 1 (length used) inside.good
            (omega (arith, inside.offset)) (omega arith) (omega arith) fits in
        (
          record { write_offset = j.write_offset + (8 + length bytes) },
          d',
          rw (ser, log)
              (log_here 1 bytes (j, d) (j, d)
                  (rw (
                    le→ltb (journal_blocks * block_size) (j.write_offset + (8 + length bytes))
                        (omega (arith, inside.offset)),
                    make_room,
                  ))
                  (le→ltb _ _ (omega (arith, inside.offset)))
                ∙ put),
          record {
            good = good';
            offset = omega (arith, inside.offset);
            holds =
                holds 1 (omega arith)
                ∙ ap (λ t. with_entry t (length used) bytes) inside.holds
                ∙ with_entry-frames used (block_size - length used) bytes
                ∙ ap (λ t. t ++ replicate (block_size - length used - (8 + length bytes)) 0)
                    (sym all)
                ∙ ap (λ t. frames (ps ++ ((op, bytes) ∷ [])) ++ replicate t 0) (omega arith);
          },
        )

    log_all-InBlock :
        (qs ps : Encoded) (j : Journal) (d : D)
        → InBlock ps j d
        → IsEncoded codec qs
        → length (frames ps) + length (frames qs) ≤ block_size
        → (j' : Journal) × (d' : D) × (log_all codec qs (j, d) ≡ (ok tt, (j', d')))
          × InBlock (ps ++ qs) j' d'
    unfolding log_all
    log_all-InBlock [] ps j d inside enc fits = (j, d, refl, rw (append-nil ps) inside)
    log_all-InBlock ((op, bytes) ∷ qs) ps j d inside (ser, pos, enc) fits =
        let both : length (frames ((op, bytes) ∷ qs)) ≡ 8 + length bytes + length (frames qs) =
          omega (arith, length-append (frame bytes) (frames qs), length-frame bytes) in
        let more : length (frames (ps ++ ((op, bytes) ∷ [])))
            ≡ length (frames ps) + (8 + length bytes) =
          ap length (frames-append ps ((op, bytes) ∷ []))
          ∙ length-append (frames ps) (frame bytes ++ [])
          ∙ ap (λ t. length (frames ps) + length t) (append-nil (frame bytes))
          ∙ ap (λ t. length (frames ps) + t) (length-frame bytes) in
        let (j1, d1, logged, inside1) = log-InBlock ps op bytes j d inside ser pos (omega arith) in
        let (j2, d2, rest, inside2) =
          log_all-InBlock qs (ps ++ ((op, bytes) ∷ [])) j1 d1 inside1 enc (omega arith) in
        (j2, d2, rw (logged, resume) rest, rw (← append_assoc ps ((op, bytes) ∷ []) qs) inside2)

    module _ (trip : IsRoundTrip codec) where
      recovered :
          (ps : Encoded) (d : D)
          → Good d
          → block d 1 ≡ frames ps ++ replicate (block_size - length (frames ps)) 0
          → IsEncoded codec ps
          → length (frames ps) + 8 ≤ block_size
          → check_recovery codec d ≡ (ok (is_dirty (scan_all ps none_open)), d)
      unfolding check_recovery
      recovered ps d good holds enc fits =
          let pad : block_size - length (frames ps) ≡ 8 + (block_size - length (frames ps) - 8) =
            omega arith in
          let scanned : scan codec (suc (journal_blocks * block_size)) 0 none_open d
              ≡ (ok (scan_all ps none_open), d) =
            scan-frames size Good block disk codec trip (omega arith) ps []
              (block_size - length (frames ps) - 8) (suc (journal_blocks * block_size)) none_open d
              good (holds ∙ ap (λ t. frames ps ++ replicate t 0) pad) (omega arith)
              (omega (arith, length-le-frames ps)) enc in
          rw (scanned, check_recovery) refl

      -- On a disk, a log that is reset and then written with operations whose frames leave eight
      -- bytes of the first block is scanned back in full: recovery reports a dirty file system
      -- exactly when the operations leave one open, an operation that was begun and not ended since,
      -- or a creation or a write that no end of either counts down.
      pub check_recovery-log_all :
          (ps : Encoded) (j : Journal) (d : D)
          → Good d
          → IsEncoded codec ps
          → length (frames ps) + 8 ≤ block_size
          → (j' : Journal) × (d' : D) × ((reset >> log_all codec ps) (j, d) ≡ (ok tt, (j', d')))
            × ((dirty : Bool) × (check_recovery codec d' ≡ (ok dirty, d'))
                × ((dirty ≡ true) ↔ LeavesOpen ps))
      check_recovery-log_all ps j d good enc fits =
          let (d1, cleared, clean) = reset-InBlock j d good in
          let (j2, d2, logged, inside) =
            log_all-InBlock ps [] (record { write_offset = 0 }) d1 clean enc (omega arith) in
          (
            j2,
            d2,
            rw (cleared, resume) logged,
            (
              is_dirty (scan_all ps none_open),
              recovered ps d2 inside.good inside.holds enc fits,
              scan_all-LeavesOpen ps,
            ),
          )

      -- One more operation, which does not fit behind them, is logged to the next block, and recovery
      -- does not see it: the scan ends at the zero word that the first block is left with. So a
      -- transaction that it opens is not reported.
      pub check_recovery-misses_next_block :
          (ps : Encoded) (op : JournalOp) (bytes : List ℕ) (j : Journal) (d : D)
          → Good d
          → IsEncoded codec ps
          → codec.serialize op ≡ some bytes
          → length (frames ps) + 8 ≤ block_size
          → block_size < length (frames ps) + (8 + length bytes)
          → 8 + length bytes ≤ block_size
          → (j' : Journal) × (d' : D) × ((reset >> (log_all codec ps >> log codec op)) (j, d)
              ≡ (ok tt, (j', d')))
            × (check_recovery codec d' ≡ (ok (is_dirty (scan_all ps none_open)), d'))
      unfolding log make_room
      check_recovery-misses_next_block ps op bytes j d good enc ser fits over small =
          let (d1, cleared, clean) = reset-InBlock j d good in
          let (j2, d2, logged, inside) =
            log_all-InBlock ps [] (record { write_offset = 0 }) d1 clean enc (omega arith) in
          let next : Journal = record {
            write_offset = (j2.write_offset / block_size + 1) * block_size;
          } in
          let start : next.write_offset ≡ block_size = omega (arith, inside.offset) in
          let (d3, put, good3, holds) =
            put_entry_lem size Good block disk bytes next d2 2 0 inside.good (omega arith)
              (omega arith) (omega arith) (omega arith) in
          let moved : log codec op (j2, d2)
              ≡ (ok tt, (record { write_offset = next.write_offset + (8 + length bytes) }, d3)) =
            rw (ser, log)
              (log_next 1 bytes (j2, d2) (j2, d2)
                  (rw (
                    le→ltb (journal_blocks * block_size) (j2.write_offset + (8 + length bytes))
                        (omega (arith, inside.offset)),
                    make_room,
                  ))
                  (lt→ltb _ _ (omega (arith, inside.offset)))
                ∙ log_here 0 bytes (next, d2) (next, d2)
                    (rw (
                      le→ltb (journal_blocks * block_size) (next.write_offset + (8 + length bytes))
                          (omega arith),
                      make_room,
                    ))
                    (le→ltb _ _ (omega arith))
                ∙ put) in
          (
            record { write_offset = next.write_offset + (8 + length bytes) },
            d3,
            bind-ok reset (λ _. log_all codec ps >> log codec op) (j, d) cleared
                ∙ bind-ok (log_all codec ps) (λ _. log codec op) (record { write_offset = 0 }, d1)
                    logged
                ∙ moved,
            recovered ps d3 good3 (holds 1 (omega arith) ∙ inside.holds) enc fits,
          )
