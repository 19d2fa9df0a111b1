-- ===== src/Kernel/Xhci.antt =====
-- unaos/crates/kernel/src/xhci: trb.rs, ring.rs and event.rs. Cache flushes and the print are left
-- out.
pub mod Command
pub mod Event
use una_os.Prelude.{
  ℕ, ◌+◌, ◌-◌, ◌*◌, ◌%◌, ◌^◌, bit_or, bit_and, List, Bool, true, false, not, leb, ltb, ◌==◌,
}
use una_os.Prelude.{if◌then◌else◌, length, set, get_or, replicate, Option, none, some}
use una_os.Prelude.Outcome.{Outcome, returned, panicked}

pub record Trb : Type 0 where
  pub parameter : ℕ
  pub status : ℕ
  pub control : ℕ

abbrev pub zero_trb : Trb
zero_trb = record { parameter = 0; status = 0; control = 0 }

-- Type 23 in bit 10 and above, IOC in bit 5, the cycle bit in bit 0.
new_noop : Bool → Trb
new_noop cycle_bit = record zero_trb {
  control = bit_or (bit_or (23 * 2 ^ 10) (2 ^ 5)) (if cycle_bit then 1 else 0);
}

abbrev pub ring_size : ℕ
ring_size = 16

pub record CommandRing : Type 0 where
  pub trbs : List Trb
  pub enqueue_index : ℕ
  pub cycle_bit : Bool

unfoldable new_command_ring : CommandRing
new_command_ring = record {
  trbs = replicate ring_size zero_trb;
  enqueue_index = 0;
  cycle_bit = true;
}

-- `trb.control |= 1` or `trb.control &= !1`
pub with_cycle : Bool → Trb → Trb
with_cycle cycle_bit trb = record trb {
  control = if cycle_bit then bit_or trb.control 1 else bit_and trb.control (2 ^ 32 - 1 - 1);
}

-- The slot is written, and the index moves on; at the end of the ring it wraps and the cycle bit
-- flips.
pub enqueue : CommandRing → Trb → Outcome (ℕ × CommandRing)
enqueue r trb =
    let index = r.enqueue_index in
    if ltb index (length r.trbs)
    then returned (
      index,
      (if leb ring_size (index + 1)
          then record {
            trbs = set r.trbs index trb;
            enqueue_index = 0;
            cycle_bit = not r.cycle_bit;
          }
          else record {
            trbs = set r.trbs index trb;
            enqueue_index = index + 1;
            cycle_bit = r.cycle_bit;
          }),
    )
    else panicked

unfoldable push_noop : CommandRing → Outcome (ℕ × CommandRing)
unfolding enqueue new_noop
push_noop r = enqueue r (new_noop true)

pub push : CommandRing → Trb → Outcome (ℕ × CommandRing)
unfolding enqueue with_cycle
push r trb = enqueue r (with_cycle r.cycle_bit trb)

pub record EventRing : Type 0 where
  pub trbs : List Trb
  pub dequeue_index : ℕ
  pub cycle_bit : Bool

unfoldable new_event_ring : EventRing
new_event_ring = record { trbs = replicate ring_size zero_trb; dequeue_index = 0; cycle_bit = true }

abbrev pub cycle_state : Trb → Bool
cycle_state trb = not (bit_and trb.control 1 == 0)

abbrev pub bool_eq : Bool → Bool → Bool
bool_eq true b = b
bool_eq false b = not b

-- An index out of range reads the zero entry here; the rings of the source have none.
pub has_event : EventRing → Bool
has_event r = bool_eq (cycle_state (get_or r.trbs r.dequeue_index zero_trb)) r.cycle_bit

pub pop : EventRing → Option Trb × EventRing
unfolding has_event
pop r = if not (has_event r) then (none, r) else (
  some (get_or r.trbs r.dequeue_index zero_trb),
  (if leb ring_size (r.dequeue_index + 1)
      then record r { dequeue_index = 0; cycle_bit = not r.cycle_bit }
      else record r { dequeue_index = r.dequeue_index + 1 }),
)

unfoldable clear : EventRing → EventRing
clear r = record r { trbs = replicate ring_size zero_trb }
