-- ===== src/Net/Ipv4.antt =====
-- unaos/crates/net/src/ipv4.rs: IPv4 headers and their checksum. A mask of low bits is written as a
-- remainder and a shift to the right as a quotient.
pub mod Checksum
pub mod Payload
use una_os.Prelude.{ℕ, zero, suc, ◌+◌, ◌-◌, ◌*◌, ◌/◌, ◌%◌, ◌^◌, min, List, [], Option, none, some}
use una_os.Prelude.{Bool, true, false, not, length, ltb, ◌==◌, if◌then◌else◌, from_be_u16}
use una_os.Prelude.Outcome.{Outcome, returned, ◌>>=◌, index, range}

pub record Ipv4Header : Type 0 where
  pub buffer : List ℕ

unfoldable pub new : List ℕ → Outcome (Option Ipv4Header)
new buffer = if ltb (length buffer) 20 then returned none else (do
  first ← index buffer 0
  (if not (first / 16 == 4)
      then returned none
      else if ltb (length buffer) ((first % 16) * 4)
      then returned none
      else returned (some (record { buffer = buffer }))))

pub header_length : Ipv4Header → Outcome ℕ
header_length h = do first ← index h.buffer 0; returned ((first % 16) * 4)

pub total_length : Ipv4Header → Outcome ℕ
total_length h = do hi ← index h.buffer 2; lo ← index h.buffer 3; returned (from_be_u16 hi lo)

unfoldable protocol : Ipv4Header → Outcome ℕ
protocol h = index h.buffer 9

unfoldable source_ip : Ipv4Header → Outcome (List ℕ)
source_ip h = range h.buffer 12 16

unfoldable destination_ip : Ipv4Header → Outcome (List ℕ)
destination_ip h = range h.buffer 16 20

-- `n` rounds of the loop over the header's words, from byte `i` on.
pub sum_words : List ℕ → ℕ → ℕ → ℕ → Outcome ℕ
sum_words buffer zero i sum = returned sum
sum_words buffer (suc n) i sum = do
  hi ← index buffer i
  lo ← index buffer (i + 1)
  sum_words buffer n (i + 2) ((sum + from_be_u16 hi lo) % 2 ^ 32)

-- The loop that adds the carries back, on fuel.
pub fold_carries : ℕ → ℕ → ℕ
fold_carries zero sum = sum
fold_carries (suc n) sum = elim (sum / 65536 == 0) [
  | true ↦ sum
  | false ↦ fold_carries n (sum % 65536 + sum / 65536)
]

unfoldable pub verify_checksum : Ipv4Header → Outcome Bool
unfolding header_length sum_words fold_carries
verify_checksum h = do
  hlen ← header_length h
  sum ← sum_words h.buffer ((hlen + 1) / 2) 0 0
  returned ((2 ^ 32 - 1 - fold_carries sum sum) % 65536 == 0)

pub payload : Ipv4Header → Outcome (List ℕ)
unfolding header_length total_length
payload h = do
  header_len ← header_length h
  total_len ← total_length h
  let end_idx = min total_len (length h.buffer)
  (if ltb end_idx header_len then returned [] else range h.buffer header_len end_idx)
