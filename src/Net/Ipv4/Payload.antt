-- ===== src/Net/Ipv4/Payload.antt =====
-- unaos/crates/net/src/ipv4.rs, payload, and that a parsed header is read in bounds.
use una_os.Prelude.{ℕ, zero, suc, ◌+◌, ◌-◌, ◌*◌, ◌/◌, ◌%◌, ◌≤◌, ◌≡◌, refl, min}
use una_os.Prelude.{Bool, true, false, Bool-cases, inl, inr, List, Option, none, some}
use una_os.Prelude.{ltb, length, get_or, slice, arith, from_be_u16, if◌then◌else◌}
use una_os.Prelude.Outcome.{returned, index_in, range_in}
use una_os.Net.Ipv4.{
  Ipv4Header, new, header_length, total_length, sum_words, verify_checksum, payload,
}
use una_os.Net.Ipv4.Checksum.{new-IsParsed}

-- The payload of a parsed header is what lies between the end of the header and the end of the
-- packet, where the packet ends at its total length or with the buffer, whichever comes first.
pub payload-slice :
    (buffer : List ℕ) (h : Ipv4Header)
    → new buffer ≡ returned (some h)
    → let start : ℕ = (get_or buffer 0 0 % 16) * 4 in
      let total : ℕ = from_be_u16 (get_or buffer 2 0) (get_or buffer 3 0) in
      payload h ≡ returned (slice buffer start (min total (length buffer) - start))
unfolding payload header_length total_length slice
payload-slice buffer h e =
    let (same, long, version, fits) = new-IsParsed buffer h e in
    let start : ℕ = (get_or buffer 0 0 % 16) * 4 in
    let end : ℕ = min (from_be_u16 (get_or buffer 2 0) (get_or buffer 3 0)) (length buffer) in
    rw
      (
        same,
        index_in buffer 0 (omega arith),
        index_in buffer 2 (omega arith),
        index_in buffer 3 (omega arith),
      )
      (elim (Bool-cases (ltb end start)) [
        | inl k ↦ let z : end - start ≡ 0 = ground arith in rw (k, z)
        | inr k ↦ rw (k, range_in buffer start end (ground arith) (omega arith))
      ])

pub new_returns : (buffer : List ℕ) → (o : Option Ipv4Header) × (new buffer ≡ returned o)
unfolding new
new_returns buffer = elim (Bool-cases (ltb (length buffer) 20)) [
  | inl e ↦ (none, rw (e, new))
  | inr e ↦ rw (e, new, index_in buffer 0 (ground arith)) (branches _ _ _)
]
  where
    branches :
        (a b : Bool) (h : Ipv4Header)
        → (o : Option Ipv4Header) × ((if a
              then returned none
              else if b
              then returned none
              else returned (some h))
            ≡ returned o)
    branches true b h = (none, refl)
    branches false true h = (none, refl)
    branches false false h = (some h, refl)

sum_words_returns :
    (buffer : List ℕ) (n i sum : ℕ)
    → i + n * 2 ≤ length buffer
    → (s : ℕ) × (sum_words buffer n i sum ≡ returned s)
unfolding sum_words
sum_words_returns buffer zero i sum h = (sum, refl)
sum_words_returns buffer (suc n) i sum h =
    rw (index_in buffer i (omega arith), index_in buffer (i + 1) (omega arith))
      (sum_words_returns buffer n (i + 2) _ (omega arith))

pub verify_checksum_returns :
    (buffer : List ℕ) (h : Ipv4Header)
    → new buffer ≡ returned (some h)
    → (b : Bool) × (verify_checksum h ≡ returned b)
unfolding verify_checksum header_length
verify_checksum_returns buffer h e =
    let (same, long, version, fits) = new-IsParsed buffer h e in
    let (s, k) =
      sum_words_returns buffer (((get_or buffer 0 0 % 16) * 4 + 1) / 2) 0 0 (omega arith) in
    rw (same, index_in buffer 0 (omega arith), k) (_, refl)
