-- ===== src/Kernel/Xhci/Event.antt =====
-- unaos/crates/kernel/src/xhci/event.rs: what a loop of pops delivers.
use una_os.Prelude.{
  ℕ, zero, suc, ◌+◌, ◌≤◌, ◌<◌, ◌≡◌, refl, ap, arith, List, [], ◌∷◌, Bool, true, false, not, leb,
}
use una_os.Prelude.{get_or, Option, none, some, ◌∙◌, lt→leb, le→leb}
use una_os.Kernel.Xhci.{Trb, EventRing, ring_size, zero_trb, cycle_state, bool_eq, has_event, pop}

abbrev pub collect :
    Option Trb × EventRing → (EventRing → List Trb × EventRing) → List Trb × EventRing
collect (none, r) rest = ([], r)
collect (some trb, r) rest = (trb ∷ (rest r).0, (rest r).1)

-- `while let Some(trb) = ring.pop()`, for `fuel` rounds at most.
pub pop_all : ℕ → EventRing → List Trb × EventRing
pop_all zero r = ([], r)
pop_all (suc fuel) r = collect (pop r) (pop_all fuel)

-- The `n` entries from slot `i` on.
pub slots : List Trb → ℕ → ℕ → List Trb
slots trbs i zero = []
slots trbs i (suc n) = get_or trbs i zero_trb ∷ slots trbs (i + 1) n

bool_eq_refl : (b : Bool) → bool_eq b b ≡ true
bool_eq_refl true = refl
bool_eq_refl false = refl

bool_eq-not : (b : Bool) → bool_eq b (not b) ≡ false
bool_eq-not true = refl
bool_eq-not false = refl

-- The entries from `i` on are fresh.
abbrev pub IsFreshFrom : ℕ → EventRing → Type 0
IsFreshFrom i r =
    (j : ℕ) → i ≤ j → j < ring_size → cycle_state (get_or r.trbs j zero_trb) ≡ r.cycle_bit

abbrev pub after_lap : EventRing → EventRing
after_lap r = record r { dequeue_index = 0; cycle_bit = not r.cycle_bit }

-- A slot that was delivered is not fresh for the next lap.
stale :
    (r : EventRing)
    → cycle_state (get_or r.trbs 0 zero_trb) ≡ r.cycle_bit
    → has_event (after_lap r) ≡ false
unfolding has_event
stale r h = rw h (bool_eq-not r.cycle_bit)

fresh :
    (r : EventRing)
    → IsFreshFrom r.dequeue_index r
    → r.dequeue_index < ring_size
    → has_event r ≡ true
unfolding has_event
fresh r h lt = rw (h r.dequeue_index (omega arith) lt) (bool_eq_refl r.cycle_bit)

pop-stale : (r : EventRing) → has_event r ≡ false → pop r ≡ (none, r)
unfolding pop
pop-stale r h = rw (h, pop)

pop-last :
    (r : EventRing)
    → has_event r ≡ true
    → leb ring_size (r.dequeue_index + 1) ≡ true
    → pop r ≡ (some (get_or r.trbs r.dequeue_index zero_trb), after_lap r)
unfolding pop
pop-last r h last = rw (h, last, pop)

pop-more :
    (r : EventRing)
    → has_event r ≡ true
    → leb ring_size (r.dequeue_index + 1) ≡ false
    → pop r ≡ (
      some (get_or r.trbs r.dequeue_index zero_trb),
      record r { dequeue_index = r.dequeue_index + 1 },
    )
unfolding pop
pop-more r h more = rw (h, more, pop)

lap :
    (n : ℕ) (r : EventRing)
    → r.dequeue_index + suc n ≡ ring_size
    → IsFreshFrom r.dequeue_index r
    → cycle_state (get_or r.trbs 0 zero_trb) ≡ r.cycle_bit
    → pop_all (suc (suc n)) r ≡ (slots r.trbs r.dequeue_index (suc n), after_lap r)
unfolding pop_all slots
lap zero r at h first =
    rw
      (
        pop-last r (fresh r h (omega arith)) (le→leb _ _ (omega arith)),
        pop-stale (after_lap r) (stale r first),
      )
      refl
lap (suc n) r at h first =
    let next : EventRing = record r { dequeue_index = r.dequeue_index + 1 } in
    rw
      (
        pop-more r (fresh r h (omega arith)) (lt→leb _ _ (omega arith)),
        lap n next (omega arith) (λ j le lt. h j (omega arith) lt) first,
      )
      refl

-- When the hardware has filled the ring, a loop of pops from slot 0 delivers the 16 entries in their
-- order and then stops, at slot 0 with the cycle bit flipped: no entry is delivered twice.
pub pop_all-lap :
    (r : EventRing)
    → r.dequeue_index ≡ 0
    → IsFreshFrom 0 r
    → (pop_all 17 r ≡ (slots r.trbs 0 16, after_lap r)) × (has_event (after_lap r) ≡ false)
pop_all-lap r at h =
    let first = h 0 (omega arith) (omega arith) in
    (
      lap 15 r (omega arith) (λ j le lt. h j (omega arith) lt) first
          ∙ ap (λ i. (slots r.trbs i 16, after_lap r)) at,
      stale r first,
    )
