-- ===== src/Unafs/Wal/Append.antt =====
-- When `log` returns, and where it leaves the write offset.
use una_os.Prelude.{ℕ, zero, suc, ◌+◌, ◌*◌, ◌/◌, ◌%◌, ◌<◌, List, ◌≡◌, refl, arith, length}
use una_os.Prelude.{inl, inr, Bool-cases, ltb, true, false, lt→ltb}
use una_os.Prelude.Exec.{ok, err, resume}
use una_os.Unafs.Storage.{BlockDevice, block_size, zero_block}
use una_os.Unafs.Wal.{Journal, no_return, journal_blocks, journal_start}
use una_os.Unafs.Wal.{make_room, put_entry, log_bytes}

module _ {D : Type 0} ⦃dev : BlockDevice D⦄ where
  -- The two ways of a round of `log` that has room.
  pub log_here :
      (fuel : ℕ) (bytes : List ℕ) (s s' : Journal × D)
      → make_room bytes s ≡ (ok tt, s')
      → ltb block_size (s'.0.write_offset % block_size + (8 + length bytes)) ≡ false
      → log_bytes (suc fuel) bytes s ≡ put_entry bytes s'
  unfolding log_bytes
  log_here fuel bytes s s' room fits = rw (room, log_bytes) (rw (fits, resume))

  pub log_next :
      (fuel : ℕ) (bytes : List ℕ) (s s' : Journal × D)
      → make_room bytes s ≡ (ok tt, s')
      → ltb block_size (s'.0.write_offset % block_size + (8 + length bytes)) ≡ true
      → log_bytes (suc fuel) bytes s
        ≡ log_bytes fuel bytes
            (record { write_offset = (s'.0.write_offset / block_size + 1) * block_size }, s'.1)
  unfolding log_bytes
  log_next fuel bytes s s' room over = rw (room, log_bytes) (rw (over, resume))

  make_room_ok :
      (bytes : List ℕ) (s : Journal × D)
      → ((d : D) → (dev.write_block journal_start zero_block d).0 ≡ ok tt)
      → (s' : Journal × D) × (make_room bytes s ≡ (ok tt, s'))
  unfolding make_room
  make_room_ok bytes s works =
      elim (Bool-cases
        (ltb (journal_blocks * block_size) (s.0.write_offset + (8 + length bytes)))) [
          | inl over ↦ (
            (record { write_offset = 0 }, (dev.write_block journal_start zero_block s.1).1),
            rw (over, make_room) (rw (works s.1)),
          )
          | inr fits ↦ (s, rw (fits, make_room))
        ]

  -- An entry that does not fit a block with its length is never written, and `log` does not return:
  -- on a device that lets the journal be reset the recursion goes on past every number of calls.
  pub log_bytes_no_return :
      (fuel : ℕ) (bytes : List ℕ) (s : Journal × D)
      → ((d : D) → (dev.write_block journal_start zero_block d).0 ≡ ok tt)
      → block_size < 8 + length bytes
      → (log_bytes fuel bytes s).0 ≡ err no_return
  log_bytes_no_return zero bytes s works h = unfold log_bytes in refl
  log_bytes_no_return (suc fuel) bytes s works h =
      let (s', room) = make_room_ok bytes s works in
      rw (log_next fuel bytes s s' room (lt→ltb _ _ (omega arith)))
        (log_bytes_no_return fuel bytes _ works h)
