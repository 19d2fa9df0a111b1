-- ===== src/Unafs/Wal/Frames.antt =====
-- What the journal writes to a block, and what the scan reads from it.
use una_os.Prelude.{ℕ, zero, suc, ◌+◌, ◌≤◌, ◌<◌, List, [], ◌∷◌, ◌++◌, ◌≡◌, refl, ap, sym}
use una_os.Prelude.{
  ◌∙◌, arith, some, length, slice, slice-append, replicate, append_assoc, append-nil,
}
use una_os.Prelude.{length-append}
use una_os.Prelude.{to_le_bytes, from_le_bytes, length-to_le_bytes, from_le_bytes-to_le_bytes}
use una_os.Unafs.Storage.{block_size}
use una_os.Unafs.Codec.{Codec, IsRoundTrip}
use una_os.Unafs.Wal.{JournalOp, entry, stop, entry_at}

-- An entry as it stands in a block: its length in eight bytes, then its bytes.
abbrev pub frame : List ℕ → List ℕ
frame bytes = to_le_bytes 8 (length bytes) ++ bytes

pub length-frame : (bytes : List ℕ) → length (frame bytes) ≡ 8 + length bytes
length-frame bytes =
    length-append (to_le_bytes 8 (length bytes)) bytes
    ∙ ap (λ t. t + length bytes) (length-to_le_bytes 8 (length bytes))

module _ (codec : Codec JournalOp) (trip : IsRoundTrip codec) where
  -- At the start of a frame the scan finds its entry.
  pub entry_at-frame :
      (before : List ℕ) (op : JournalOp) (bytes after : List ℕ) (at : ℕ)
      → codec.serialize op ≡ some bytes
      → 0 < length bytes
      → at ≡ length before
      → at + (8 + length bytes) ≤ block_size
      → entry_at codec (before ++ (frame bytes ++ after)) at ≡ entry op (length bytes)
  unfolding entry_at
  entry_at-frame before op bytes after at ser pos e fits =
      let len : from_le_bytes (slice (before ++ (frame bytes ++ after)) at 8) ≡ length bytes =
        ap from_le_bytes (
          ap (λ t. slice (before ++ t) at 8)
            (append_assoc (to_le_bytes 8 (length bytes)) bytes after)
          ∙ slice-append before (to_le_bytes 8 (length bytes)) (bytes ++ after) at 8 e
              (sym (length-to_le_bytes 8 (length bytes))))
        ∙ from_le_bytes-to_le_bytes 8 (length bytes) (omega arith) in
      let body : slice (before ++ (frame bytes ++ after)) (at + 8) (length bytes) ≡ bytes =
        ap (λ t. slice (before ++ t) (at + 8) (length bytes))
          (append_assoc (to_le_bytes 8 (length bytes)) bytes after)
        ∙ ap (λ t. slice t (at + 8) (length bytes))
            (sym (append_assoc before (to_le_bytes 8 (length bytes)) (bytes ++ after)))
        ∙ slice-append (before ++ to_le_bytes 8 (length bytes)) bytes after (at + 8) (length bytes)
            (omega (
              arith,
              length-append before (to_le_bytes 8 (length bytes)),
              length-to_le_bytes 8 (length bytes),
            ))
            refl in
      let decoded : codec.deserialize bytes ≡ some op =
        ap codec.deserialize (sym (append-nil bytes)) ∙ trip.reads_back op bytes [] ser in
      ground (arith, len, body, decoded)

abbrev zero_word : List ℕ
zero_word = replicate 8 0

zero_word_value : from_le_bytes zero_word ≡ 0
unfolding from_le_bytes
zero_word_value = refl

-- Eight zero bytes end the scan.
pub entry_at-zeros :
    (codec : Codec JournalOp) (before : List ℕ) (n at : ℕ)
    → at ≡ length before
    → entry_at codec (before ++ replicate (8 + n) 0) at ≡ stop
unfolding entry_at
entry_at-zeros codec before n at e =
    let word : slice (before ++ replicate (8 + n) 0) at 8 ≡ zero_word =
      ap (λ t. slice (before ++ t) at 8) (split 8 n)
      ∙ slice-append before zero_word (replicate n 0) at 8 e refl in
    ground (arith, ap from_le_bytes word, zero_word_value)
  where
    split : (k n : ℕ) → replicate {A = ℕ} (k + n) 0 ≡ replicate k 0 ++ replicate n 0
    split zero n = let f : 0 + n ≡ n = omega arith in rw f
    split (suc k) n =
        let f : suc k + n ≡ suc (k + n) = omega arith in rw f (ap (λ t. 0 ∷ t) (split k n))
