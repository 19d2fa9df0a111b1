-- ===== src/Unafs/Wal/Recovery.antt =====
-- What `check_recovery` finds in a log that `reset` and `log` have written.
pub mod Logged
pub mod Opens
pub mod Scan
pub mod Write
pub mod Theorems
use una_os.Prelude.{ℕ, ◌+◌, ◌≤◌, ◌<◌, List, [], ◌∷◌, ◌++◌, ◌≡◌, refl, ap, sym, ◌∙◌, some, length}
use una_os.Prelude.{arith, replicate, append_assoc, append-nil, length-append}
use una_os.Prelude.Exec.{Exec, pure, ◌>>=◌, ◌>>◌}
use una_os.Unafs.Storage.{BlockDevice}
use una_os.Unafs.Codec.{Codec}
use una_os.Unafs.Wal.{Journal, JournalOp, JournalError, Open, scan_op, log}
use una_os.Unafs.Wal.Frames.{frame}

-- Operations with the bytes that they are serialised to.
abbrev pub Encoded : Type 0
Encoded = List (JournalOp × List ℕ)

abbrev pub frames : Encoded → List ℕ
frames [] = []
frames ((op, bytes) ∷ ps) = frame bytes ++ frames ps

-- Each encoding is the serialiser's, and is not empty.
abbrev pub IsEncoded : Codec JournalOp → Encoded → Type 0
IsEncoded codec [] = Unit
IsEncoded codec ((op, bytes) ∷ ps) =
    (codec.serialize op ≡ some bytes) × (0 < length bytes) × IsEncoded codec ps

abbrev pub scan_all : Encoded → Open → Open
scan_all [] s = s
scan_all ((op, bytes) ∷ ps) s = scan_all ps (scan_op op s)

pub log_all :
    {D : Type 0} ⦃dev : BlockDevice D⦄
    → Codec JournalOp
    → Encoded
    → Exec JournalError (Journal × D) (Unit {0})
log_all codec [] = pure tt
log_all codec ((op, bytes) ∷ ps) = log codec op >> log_all codec ps

pub frames-append : (ps qs : Encoded) → frames (ps ++ qs) ≡ frames ps ++ frames qs
frames-append [] qs = refl
frames-append ((op, bytes) ∷ ps) qs =
    ap (λ t. frame bytes ++ t) (frames-append ps qs)
    ∙ sym (append_assoc (frame bytes) (frames ps) (frames qs))
