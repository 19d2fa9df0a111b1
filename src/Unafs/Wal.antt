-- ===== src/Unafs/Wal.antt =====
-- libs/unafs/src/wal.rs: the write-ahead log.
pub mod Frames
pub mod Append
pub mod Recovery
use una_os.Prelude.{
  ℕ, zero, suc, ◌+◌, ◌-◌, ◌*◌, ◌/◌, ◌%◌, ◌^◌, List, [], ◌∷◌, ◌++◌, Option, none, some,
}
use una_os.Prelude.{
  Bool, true, false, not, ◌||◌, ltb, leb, ◌==◌, if◌then◌else◌, length, slice, splice,
}
use una_os.Prelude.{to_le_bytes, from_le_bytes}
use una_os.Prelude.Text.{Text}
use una_os.Prelude.Exec.{
  Result, ok, err, Exec, ◌>>=◌, ◌>>◌, pure, fail, gets, modify, map_err, raised,
}
use una_os.Unafs.Storage.{StorageError, BlockDevice, block_size, zero_block}
use una_os.Unafs.Codec.{Codec}

abbrev pub journal_blocks : ℕ
journal_blocks = 10

abbrev pub journal_start : ℕ
journal_start = 1

pub data JournalOp : Type 0 where
  begin_op : ℕ → Text → JournalOp
  end_op : ℕ → JournalOp
  begin_create : ℕ → Text → JournalOp
  end_create : ℕ → JournalOp
  begin_write : ℕ → JournalOp
  end_write : ℕ → JournalOp

-- The last two are no values of the source: `no_return` stands for a call that does not return (the
-- model's fuel ran out), `slice_panic` for the panic of a slice whose end lies before its start.
pub data JournalError : Type 0 where
  storage : StorageError → JournalError
  serialization : JournalError
  journal_full : JournalError
  no_return : JournalError
  slice_panic : JournalError

pub record Journal : Type 0 where
  pub write_offset : ℕ

abbrev pub new : Journal
new = record { write_offset = 0 }

-- The operations of the open transactions that a scan of the log has met.
pub record Open : Type 0 where
  pub open_ops : List ℕ
  pub open_transaction_count : ℕ

abbrev pub none_open : Open
none_open = record { open_ops = []; open_transaction_count = 0 }

-- `HashSet<u64>` as the list of its elements.
pub set_remove : ℕ → List ℕ → List ℕ
set_remove x [] = []
set_remove x (y ∷ ys) = let rest = set_remove x ys in if y == x then rest else y ∷ rest

pub set_insert : ℕ → List ℕ → List ℕ
unfolding set_remove
set_insert x ys = x ∷ set_remove x ys

unfoldable pub scan_op : JournalOp → Open → Open
unfolding set_insert
scan_op (begin_op id desc) s = record s { open_ops = set_insert id s.open_ops }
scan_op (end_op id) s = record s { open_ops = set_remove id s.open_ops }
scan_op (begin_create parent name) s = record s {
  open_transaction_count = s.open_transaction_count + 1;
}
scan_op (begin_write id) s = record s { open_transaction_count = s.open_transaction_count + 1 }
scan_op (end_create id) s = record s { open_transaction_count = s.open_transaction_count - 1 }
scan_op (end_write id) s = record s { open_transaction_count = s.open_transaction_count - 1 }

abbrev pub is_empty : List ℕ → Bool
is_empty [] = true
is_empty (x ∷ xs) = false

unfoldable pub is_dirty : Open → Bool
is_dirty s = not (is_empty s.open_ops) || ltb 0 s.open_transaction_count

-- What the scan finds at `offset_in_block`, where eight bytes are left in the block.
pub data Entry : Type 0 where
  stop : Entry
  broken : Entry
  entry : JournalOp → ℕ → Entry

pub entry_at : Codec JournalOp → List ℕ → ℕ → Entry
entry_at codec block at =
    let len = from_le_bytes (slice block at 8) in
    let end = (at + 8 + len) % 2 ^ 64 in
    if len == 0
    then stop
    else if ltb block_size end
    then stop
    else if ltb end (at + 8)
    then broken
    else elim (codec.deserialize (slice block (at + 8) len)) [
      | none ↦ stop
      | some op ↦ entry op len
    ]

module _ {D : Type 0} ⦃dev : BlockDevice D⦄ where
  abbrev pub on_device : {A : Type 0} → Exec StorageError D A → Exec JournalError (Journal × D) A
  on_device m s = (map_err storage (m s.1).0, (s.0, (m s.1).1))

  abbrev pub seek : ℕ → Exec JournalError (Journal × D) (Unit {0})
  seek offset s = (ok tt, (record { write_offset = offset }, s.1))

  unfoldable pub reset : Exec JournalError (Journal × D) (Unit {0})
  reset = do seek 0; on_device (dev.write_block journal_start zero_block)

  -- `if self.write_offset + total_len > capacity { self.reset(device)? }`
  pub make_room : List ℕ → Exec JournalError (Journal × D) (Unit {0})
  unfolding reset
  make_room bytes s =
      if ltb (journal_blocks * block_size) (s.0.write_offset + (8 + length bytes))
      then reset s
      else (ok tt, s)

  -- The entry is written to the current block, behind its length.
  pub put_entry : List ℕ → Exec JournalError (Journal × D) (Unit {0})
  put_entry bytes s =
      let at = s.0.write_offset % block_size in
      let id = journal_start + s.0.write_offset / block_size in
      (do
        block ← on_device (dev.read_block id block_size)
        on_device (
            dev.write_block id
              (splice (splice block at (to_le_bytes 8 (length bytes))) (at + 8) bytes))
        seek (s.0.write_offset + (8 + length bytes)))
        s

  -- `log` after `bincode::serialize`; it calls itself once it has moved to the next block.
  pub log_bytes : ℕ → List ℕ → Exec JournalError (Journal × D) (Unit {0})
  log_bytes zero bytes = fail no_return
  log_bytes (suc fuel) bytes = do
    make_room bytes
    offset ← gets (λ s. s.0.write_offset)
    elim (ltb block_size (offset % block_size + (8 + length bytes))) [
      | true ↦ seek ((offset / block_size + 1) * block_size) >> log_bytes fuel bytes
      | false ↦ put_entry bytes
    ]

  -- Two calls are enough where the entry fits a block, and no number is where it does not.
  pub log : Codec JournalOp → JournalOp → Exec JournalError (Journal × D) (Unit {0})
  log codec op = elim (codec.serialize op) [
    | none ↦ fail serialization
    | some bytes ↦ log_bytes 2 bytes
  ]

  unfoldable append : Codec JournalOp → JournalOp → Exec JournalError (Journal × D) (Unit {0})
  append codec op = log codec op

  -- The loop of `check_recovery` from `offset` on.
  pub scan : Codec JournalOp → ℕ → ℕ → Open → Exec JournalError D Open
  scan codec zero offset s = fail no_return
  scan codec (suc fuel) offset s = elim (leb (journal_blocks * block_size) offset) [
    | true ↦ pure s
    | false ↦ elim (ltb block_size (offset % block_size + 8)) [
      | true ↦ scan codec fuel ((offset / block_size + 1) * block_size) s
      | false ↦ do
        block ← raised storage (dev.read_block (journal_start + offset / block_size) block_size)
        elim (entry_at codec block (offset % block_size)) [
          | stop ↦ pure s
          | broken ↦ fail slice_panic
          | entry op len ↦ scan codec fuel (offset + (8 + len)) (scan_op op s)
        ]
    ]
  ]

  -- Each round of the scan moves on by a byte at least.
  pub check_recovery : Codec JournalOp → Exec JournalError D Bool
  check_recovery codec = do
    s ← scan codec (suc (journal_blocks * block_size)) 0 none_open
    pure (is_dirty s)
