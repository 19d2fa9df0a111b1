-- ===== src/Unafs/Wal/Recovery/Scan.antt =====
-- The scan of one block that holds frames and then zeros, and how a scan ends.
use una_os.Prelude.{◌^◌, slice, from_le_bytes}
use una_os.Prelude.Exec.{Result}
use una_os.Unafs.Storage.{StorageError}
use una_os.Unafs.Wal.{storage}
use una_os.Prelude.{ℕ, zero, suc, ◌+◌, ◌*◌, ◌/◌, ◌%◌, ◌≤◌, ◌<◌, List, [], ◌∷◌, ◌++◌, ◌≡◌, refl}
use una_os.Prelude.{ap, sym, ◌∙◌, length, arith, replicate, append_assoc, length-append}
use una_os.Prelude.{ltb, leb, false, le→ltb, lt→leb}
use una_os.Prelude.Exec.{Exec, ok, err, resume}
use una_os.Unafs.Storage.{BlockDevice, block_size}
use una_os.Unafs.Storage.Disk.{IsDisk}
use una_os.Unafs.Codec.{Codec, IsRoundTrip}
use una_os.Unafs.Wal.{JournalOp, Open, entry, stop, scan_op, entry_at, scan}
use una_os.Unafs.Wal.{JournalError, journal_blocks, journal_start, slice_panic}
use una_os.Unafs.Wal.Frames.{frame, length-frame, entry_at-frame, entry_at-zeros}
use una_os.Unafs.Wal.Recovery.{Encoded, frames, IsEncoded, scan_all}

module _ {D : Type 0} ⦃dev : BlockDevice D⦄ (size : ℕ) (Good : D → Type 0) (block : D → ℕ → List ℕ)
    (disk : IsDisk size Good block) (codec : Codec JournalOp) where
  module _ (fuel offset : ℕ) (s : Open) (d : D) (good : Good d) (start : offset + 8 ≤ block_size)
      (room : 2 ≤ size) where
    first_block :
        dev.read_block (journal_start + offset / block_size) block_size d ≡ (ok (block d 1), d)
    first_block =
        let e : journal_start + offset / block_size ≡ 1 = omega arith in
        rw e (disk.read d 1 good (omega arith))

    in_region : leb (journal_blocks * block_size) offset ≡ false
    in_region = lt→leb _ _ (omega arith)

    has_word : ltb block_size (offset % block_size + 8) ≡ false
    has_word = le→ltb _ _ (omega arith)

    scan-entry :
        (op : JournalOp) (len : ℕ)
        → entry_at codec (block d 1) (offset % block_size) ≡ entry op len
        → scan codec (suc fuel) offset s d ≡ scan codec fuel (offset + (8 + len)) (scan_op op s) d
    unfolding scan
    scan-entry op len e =
        rw (in_region, scan) (rw has_word (rw (first_block, resume) (rw (e, resume))))

    scan_stop :
        entry_at codec (block d 1) (offset % block_size) ≡ stop
        → scan codec (suc fuel) offset s d ≡ (ok s, d)
    unfolding scan
    scan_stop e = rw (in_region, scan) (rw has_word (rw (first_block, resume) (rw (e, resume))))

  module _ (trip : IsRoundTrip codec) (room : 2 ≤ size) where
    -- Over a block of frames with a zero word behind them the scan meets every operation, in order.
    pub scan-frames :
        (ps : Encoded) (before : List ℕ) (n fuel : ℕ) (s : Open) (d : D)
        → Good d
        → block d 1 ≡ before ++ (frames ps ++ replicate (8 + n) 0)
        → length before + length (frames ps) + 8 ≤ block_size
        → length ps < fuel
        → IsEncoded codec ps
        → scan codec fuel (length before) s d ≡ (ok (scan_all ps s), d)
    scan-frames ps before n zero s d good holds fits h enc = absurd (omega arith)
    scan-frames [] before n (suc fuel) s d good holds fits h enc =
        let e : length before % block_size ≡ length before = omega arith in
        scan_stop fuel (length before) s d good (omega arith) room
          (rw (e, holds) (entry_at-zeros codec before n (length before) refl))
    scan-frames ((op, bytes) ∷ ps) before n (suc fuel) s d good holds fits h (ser, pos, enc) =
        let e : length before % block_size ≡ length before = omega arith in
        let grow : length (before ++ frame bytes) ≡ length before + (8 + length bytes) =
          omega (arith, length-append before (frame bytes), length-frame bytes) in
        let both : length (frames ((op, bytes) ∷ ps)) ≡ 8 + length bytes + length (frames ps) =
          omega (arith, length-append (frame bytes) (frames ps), length-frame bytes) in
        let split : before ++ (frames ((op, bytes) ∷ ps) ++ replicate (8 + n) 0)
            ≡ before ++ (frame bytes ++ (frames ps ++ replicate (8 + n) 0)) =
          ap (λ t. before ++ t) (append_assoc (frame bytes) (frames ps) (replicate (8 + n) 0)) in
        scan-entry fuel (length before) s d good (omega arith) room op (length bytes) (
          rw (e, holds ∙ split)
            (entry_at-frame codec trip before op bytes (frames ps ++ replicate (8 + n) 0)
              (length before) ser pos refl (omega arith)))
        ∙ ap (λ t. scan codec fuel t (scan_op op s) d) (sym grow)
        ∙ scan-frames ps (before ++ frame bytes) n fuel (scan_op op s) d good
            (holds
              ∙ split
              ∙ sym (append_assoc before (frame bytes) (frames ps ++ replicate (8 + n) 0)))
            (omega arith) (omega arith) enc

-- The word at `at` of these bytes, as the length of an entry behind it, gives an end that 64 bits do
-- not hold.
abbrev pub Wraps : List ℕ → ℕ → Type 0
Wraps bytes at = 2 ^ 64 ≤ at + 8 + from_le_bytes (slice bytes at 8)

-- How a scan ends: with a result, with an error of the device, or with the panic of a slice, and then
-- a block that was read has a length whose end does not fit 64 bits.
pub data Ends (D : Type 0) ⦃dev : BlockDevice D⦄ {A : Type 0} : Result JournalError A → Type 0 where
  finished : (a : A) → Ends D (ok a)
  device_failed : (e : StorageError) → Ends D (err (storage e))
  wrapped :
      (offset : ℕ) (d : D) (bytes : List ℕ)
      → (dev.read_block (journal_start + offset / block_size) block_size d).0 ≡ ok bytes
      → Wraps bytes (offset % block_size)
      → Ends D (err slice_panic)
