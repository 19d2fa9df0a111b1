-- ===== src/Unafs/Wal/Recovery/Opens.antt =====
-- libs/unafs/src/wal.rs: which transactions the operations of a log leave open.
use una_os.Prelude.{ℕ, ◌+◌, ◌-◌, ◌<◌, List, [], ◌∷◌, ◌≡◌, ◌⊎◌, ◌↔◌, refl, ap, sym, ◌∙◌, arith}
use una_os.Prelude.{Bool, true, false, not, ◌||◌, ◌&&◌, ◌==◌, inl, inr}
use una_os.Unafs.Wal.{begin_op, end_op, begin_create, end_create, begin_write, end_write}
use una_os.Unafs.Wal.{Open, scan_op, is_dirty, none_open, set_remove, set_insert}
use una_os.Unafs.Wal.Recovery.{Encoded, scan_all}

-- Whether the operation `id` is open after these, if `b` says whether it was before: the last begin or
-- end of it counts.
abbrev pub open_after : ℕ → Bool → Encoded → Bool
open_after id b [] = b
open_after id b ((begin_op x desc, bytes) ∷ ps) = open_after id (b || x == id) ps
open_after id b ((end_op x, bytes) ∷ ps) = open_after id (b && not (x == id)) ps
open_after id b ((begin_create x name, bytes) ∷ ps) = open_after id b ps
open_after id b ((end_create x, bytes) ∷ ps) = open_after id b ps
open_after id b ((begin_write x, bytes) ∷ ps) = open_after id b ps
open_after id b ((end_write x, bytes) ∷ ps) = open_after id b ps

-- How many creations and writes are pending after these, if `n` were before; an end that ends none
-- counts for nothing.
abbrev pub pending : ℕ → Encoded → ℕ
pending n [] = n
pending n ((begin_op x desc, bytes) ∷ ps) = pending n ps
pending n ((end_op x, bytes) ∷ ps) = pending n ps
pending n ((begin_create x name, bytes) ∷ ps) = pending (n + 1) ps
pending n ((end_create x, bytes) ∷ ps) = pending (n - 1) ps
pending n ((begin_write x, bytes) ∷ ps) = pending (n + 1) ps
pending n ((end_write x, bytes) ∷ ps) = pending (n - 1) ps

-- The operations leave something open.
abbrev pub LeavesOpen : Encoded → Type 0
LeavesOpen ps = ((id : ℕ) × (open_after id false ps ≡ true)) ⊎ (0 < pending 0 ps)

abbrev has : ℕ → List ℕ → Bool
has id [] = false
has id (x ∷ xs) = has id xs || x == id

has-set_remove : (id x : ℕ) (ys : List ℕ) → has id (set_remove x ys) ≡ (has id ys && not (x == id))
unfolding set_remove
has-set_remove id x [] = refl
has-set_remove id x (y ∷ ys) = ground (arith, has-set_remove id x ys)

has-set_insert : (id x : ℕ) (ys : List ℕ) → has id (set_insert x ys) ≡ (has id ys || x == id)
unfolding set_insert
has-set_insert id x ys = ground (arith, has-set_remove id x ys)

has-scan_all :
    (id : ℕ) (ps : Encoded) (s : Open)
    → has id (scan_all ps s).open_ops ≡ open_after id (has id s.open_ops) ps
unfolding scan_op
has-scan_all id [] s = refl
has-scan_all id ((begin_op x desc, bytes) ∷ ps) s =
    has-scan_all id ps (scan_op (begin_op x desc) s)
    ∙ ap (λ b. open_after id b ps) (has-set_insert id x s.open_ops)
has-scan_all id ((end_op x, bytes) ∷ ps) s =
    has-scan_all id ps (scan_op (end_op x) s)
    ∙ ap (λ b. open_after id b ps) (has-set_remove id x s.open_ops)
has-scan_all id ((begin_create x name, bytes) ∷ ps) s =
    has-scan_all id ps (scan_op (begin_create x name) s)
has-scan_all id ((end_create x, bytes) ∷ ps) s = has-scan_all id ps (scan_op (end_create x) s)
has-scan_all id ((begin_write x, bytes) ∷ ps) s = has-scan_all id ps (scan_op (begin_write x) s)
has-scan_all id ((end_write x, bytes) ∷ ps) s = has-scan_all id ps (scan_op (end_write x) s)

scan_all-pending :
    (ps : Encoded) (s : Open)
    → (scan_all ps s).open_transaction_count ≡ pending s.open_transaction_count ps
unfolding scan_op
scan_all-pending [] s = refl
scan_all-pending ((begin_op x desc, bytes) ∷ ps) s =
    scan_all-pending ps (scan_op (begin_op x desc) s)
scan_all-pending ((end_op x, bytes) ∷ ps) s = scan_all-pending ps (scan_op (end_op x) s)
scan_all-pending ((begin_create x name, bytes) ∷ ps) s =
    scan_all-pending ps (scan_op (begin_create x name) s)
scan_all-pending ((end_create x, bytes) ∷ ps) s = scan_all-pending ps (scan_op (end_create x) s)
scan_all-pending ((begin_write x, bytes) ∷ ps) s = scan_all-pending ps (scan_op (begin_write x) s)
scan_all-pending ((end_write x, bytes) ∷ ps) s = scan_all-pending ps (scan_op (end_write x) s)

dirty_iff :
    (ops : List ℕ) (n : ℕ)
    → (is_dirty (record { open_ops = ops; open_transaction_count = n }) ≡ true)
      ↔ (((id : ℕ) × (has id ops ≡ true)) ⊎ (0 < n))
unfolding is_dirty
dirty_iff [] n = (
  λ h. inr (ground (arith, h)),
  λ h. elim h [ inl p ↦ absurd (cc (p.1)) | inr pos ↦ ground (arith, pos) ],
)
dirty_iff (x ∷ xs) n = (λ h. inl (x, ground arith), λ h. refl)

-- The state of the scan is dirty exactly if the operations leave something open.
pub scan_all-LeavesOpen : (ps : Encoded) → (is_dirty (scan_all ps none_open) ≡ true) ↔ LeavesOpen ps
scan_all-LeavesOpen ps =
    let s = scan_all ps none_open in
    let both = dirty_iff s.open_ops s.open_transaction_count in
    let count = scan_all-pending ps none_open in
    (
      λ h. elim (both.0 h) [
        | inl p ↦ inl (p.0, sym (has-scan_all p.0 ps none_open) ∙ p.1)
        | inr pos ↦ inr (omega arith)
      ],
      λ h. elim h [
        | inl p ↦ both.1 (inl (p.0, has-scan_all p.0 ps none_open ∙ p.1))
        | inr pos ↦ both.1 (inr (omega arith))
      ],
    )
