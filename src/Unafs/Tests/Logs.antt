-- ===== src/Unafs/Tests/Logs.antt =====
-- The theorems about the write-ahead log on small logs.
use una_os.Prelude.{ℕ, ◌≡◌, refl, arith, List, [], ◌∷◌, some, length, to_le_bytes}
use una_os.Prelude.Exec.{ok, err, ◌>>◌}
use una_os.Unafs.Storage.{zero_block, length-zero_block}
use una_os.Unafs.Storage.Mem.{MemDevice, mem_device, write_block}
use una_os.Unafs.Storage.Mem.Contract.{HasBlocks, block, mem_device-IsDisk}
use una_os.Unafs.Wal.{Journal, JournalOp, begin_write, end_write, begin_create, no_return}
use una_os.Unafs.Wal.{reset, log_bytes, log, check_recovery, is_dirty, none_open}
use una_os.Unafs.Wal.Append.{log_bytes_no_return}
use una_os.Unafs.Wal.Recovery.Logged.{Logged, log_bytes-Logged}
use una_os.Unafs.Wal.Recovery.{Encoded, IsEncoded, scan_all, log_all}
use una_os.Prelude.{Bool, true, ◌↔◌}
use una_os.Unafs.Wal.Recovery.Opens.{LeavesOpen}
use una_os.Unafs.Wal.Recovery.Theorems.{check_recovery-log_all, check_recovery-misses_next_block}
use una_os.Unafs.Tests.Fixtures.{zeros, length-zeros, zero_disk, zero_disk-HasBlocks, op_codec}
use una_os.Unafs.Tests.Fixtures.{op_codec-IsRoundTrip, serialize_op}

-- The write offset is three bytes before the end of the region.
abbrev near_end : Journal × MemDevice
near_end = (record { write_offset = 40957 }, zero_disk 12)

log_bytes-Logged_example :
    (s' : Journal × MemDevice) × (log_bytes 2 (5 ∷ 7 ∷ []) near_end ≡ (ok tt, s'))
    × Logged 12 (HasBlocks 12) block (5 ∷ 7 ∷ []) near_end.1 s'.0 s'.1
log_bytes-Logged_example =
    log_bytes-Logged 12 (HasBlocks 12) block (mem_device-IsDisk 12) (omega arith) (5 ∷ 7 ∷ [])
      near_end (zero_disk-HasBlocks 12 (omega arith)) (omega arith)

zero_block-written : (d : MemDevice) → (write_block 1 zero_block d).0 ≡ ok tt
unfolding write_block
zero_block-written d = ground (arith, length-zero_block)

log_bytes_no_return_example :
    (log_bytes 1000 (zeros 4089) (record { write_offset = 0 }, zero_disk 12)).0 ≡ err no_return
log_bytes_no_return_example =
    log_bytes_no_return 1000 (zeros 4089) (record { write_offset = 0 }, zero_disk 12)
      zero_block-written (omega (arith, length-zeros 4089))

-- One write that ended, and one that did not.
abbrev one_open : Encoded
one_open =
    (begin_write 7, 4 ∷ 7 ∷ []) ∷ (end_write 7, 5 ∷ 7 ∷ []) ∷ (begin_write 9, 4 ∷ 9 ∷ []) ∷ []

one_open-IsEncoded : IsEncoded op_codec one_open
unfolding serialize_op
one_open-IsEncoded = (refl, omega arith, (refl, omega arith, (refl, omega arith, tt)))

check_recovery-log_all_example :
    (j' : Journal) × (d' : MemDevice) × ((reset >> log_all op_codec one_open)
        (record { write_offset = 0 }, zero_disk 12)
      ≡ (ok tt, (j', d')))
    × ((dirty : Bool) × (check_recovery op_codec d' ≡ (ok dirty, d'))
        × ((dirty ≡ true) ↔ LeavesOpen one_open))
unfolding to_le_bytes
check_recovery-log_all_example =
    check_recovery-log_all 12 (HasBlocks 12) block (mem_device-IsDisk 12) (omega arith) op_codec
      op_codec-IsRoundTrip one_open (record { write_offset = 0 }) (zero_disk 12)
      (zero_disk-HasBlocks 12 (omega arith)) one_open-IsEncoded (omega arith)

abbrev all_closed : Encoded
all_closed = (begin_write 7, 4 ∷ 7 ∷ []) ∷ (end_write 7, 5 ∷ 7 ∷ []) ∷ []

all_closed-IsEncoded : IsEncoded op_codec all_closed
unfolding serialize_op
all_closed-IsEncoded = (refl, omega arith, (refl, omega arith, tt))

-- A file is created under a long name.
abbrev creation : JournalOp
creation = begin_create 3 (zeros 4080)

abbrev creation_bytes : List ℕ
creation_bytes = 2 ∷ 3 ∷ length (zeros 4080) ∷ zeros 4080

creation-serialized : op_codec.serialize creation ≡ some creation_bytes
unfolding serialize_op
creation-serialized = refl

check_recovery-misses_next_block_example :
    (j' : Journal) × (d' : MemDevice) × ((reset
          >> (log_all op_codec all_closed >> log op_codec creation))
        (record { write_offset = 0 }, zero_disk 12)
      ≡ (ok tt, (j', d')))
    × (check_recovery op_codec d' ≡ (ok (is_dirty (scan_all all_closed none_open)), d'))
unfolding to_le_bytes
check_recovery-misses_next_block_example =
    check_recovery-misses_next_block 12 (HasBlocks 12) block (mem_device-IsDisk 12) (omega arith)
      op_codec op_codec-IsRoundTrip all_closed creation creation_bytes (record { write_offset = 0 })
      (zero_disk 12) (zero_disk-HasBlocks 12 (omega arith)) all_closed-IsEncoded creation-serialized
      (omega arith) (omega (arith, length-zeros 4080)) (omega (arith, length-zeros 4080))
