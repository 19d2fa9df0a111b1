-- ===== src/Kernel/Xhci/Command.antt =====
-- unaos/crates/kernel/src/xhci/ring.rs: the invariant of the command ring.
use una_os.Prelude.{ℕ, ◌+◌, ◌%◌, ◌<◌, ◌≡◌, ◌≢◌, refl, arith, not, leb, ◌==◌, length}
use una_os.Prelude.{
  set, get_or, if◌then◌else◌, length-set, get_or-set_self, get_or-set_ne, Bool-cases, inl, inr,
}
use una_os.Prelude.Outcome.{returned}
use una_os.Prelude.{Bool, ◌*◌, ◌/◌, ◌^◌, bit_or, true, false}
use una_os.Prelude.Bits.Digits.{bit_or_digit, bit_or_nothing, bit_and_window}
use una_os.Kernel.Xhci.{Trb, CommandRing, ring_size, zero_trb, with_cycle, enqueue, push}

pub record IsRing (r : CommandRing) : Type 0 where
  pub slots : length r.trbs ≡ ring_size
  pub index : r.enqueue_index < ring_size

-- The entry with the cycle bit in the lowest bit of its control word.
pub record IsEntry (cycle_bit : Bool) (trb : Trb) (kept : Trb) : Type 0 where
  pub parameter : kept.parameter ≡ trb.parameter
  pub status : kept.status ≡ trb.status
  pub lowest : kept.control % 2 ≡ (if cycle_bit then 1 else 0)
  pub above : kept.control / 2 ≡ trb.control / 2

with_cycle-IsEntry :
    (cycle_bit : Bool) (trb : Trb)
    → trb.control < 2 ^ 32
    → IsEntry cycle_bit trb (with_cycle cycle_bit trb)
unfolding with_cycle
with_cycle-IsEntry true trb h =
    let d = bit_or_digit trb.control 1 in
    let n = bit_or_nothing (trb.control / 2) in
    let e : bit_or trb.control 1 ≡ trb.control / 2 * 2 + 1 = ground (arith, d, n) in
    record { parameter = refl; status = refl; lowest = omega (arith, e); above = omega (arith, e) }
with_cycle-IsEntry false trb h =
    let e = bit_and_window 1 31 trb.control in
    record { parameter = refl; status = refl; lowest = omega (arith, e); above = omega (arith, e) }

-- What a push leaves: its slot holds the entry, the others are as before, the index has moved on by
-- one modulo the size, and the cycle bit has flipped exactly if it wrapped.
pub record Pushed (r : CommandRing) (trb : Trb) (r' : CommandRing) : Type 0 where
  pub ring : IsRing r'
  pub here : IsEntry r.cycle_bit trb (get_or r'.trbs r.enqueue_index zero_trb)
  pub others : (j : ℕ) → r.enqueue_index ≢ j → get_or r'.trbs j zero_trb ≡ get_or r.trbs j zero_trb
  pub next : r'.enqueue_index ≡ (r.enqueue_index + 1) % ring_size
  pub cycle : r'.cycle_bit ≡ (if r'.enqueue_index == 0 then not r.cycle_bit else r.cycle_bit)

enqueue-Pushed :
    (r : CommandRing) (trb kept : Trb)
    → IsEntry r.cycle_bit trb kept
    → IsRing r
    → (r' : CommandRing) × (enqueue r kept ≡ returned (r.enqueue_index, r')) × Pushed r trb r'
unfolding enqueue
enqueue-Pushed r trb kept entry ok =
    let slots = ok.slots in
    let index = ok.index in
    elim (Bool-cases (leb ring_size (r.enqueue_index + 1))) [
      | inl last ↦ (
        record {
          trbs = set r.trbs r.enqueue_index kept;
          enqueue_index = 0;
          cycle_bit = not r.cycle_bit;
        },
        ground arith,
        record {
          ring = record {
            slots = omega (arith, length-set r.trbs r.enqueue_index kept);
            index = omega arith;
          };
          here = rw (get_or-set_self r.trbs r.enqueue_index kept zero_trb (omega arith)) entry;
          others = λ j ne. get_or-set_ne r.trbs r.enqueue_index j kept zero_trb ne;
          next = ground arith;
          cycle = refl;
        },
      )
      | inr more ↦ (
        record {
          trbs = set r.trbs r.enqueue_index kept;
          enqueue_index = r.enqueue_index + 1;
          cycle_bit = r.cycle_bit;
        },
        ground arith,
        record {
          ring = record {
            slots = omega (arith, length-set r.trbs r.enqueue_index kept);
            index = ground arith;
          };
          here = rw (get_or-set_self r.trbs r.enqueue_index kept zero_trb (omega arith)) entry;
          others = λ j ne. get_or-set_ne r.trbs r.enqueue_index j kept zero_trb ne;
          next = ground arith;
          cycle = ground arith;
        },
      )
    ]

-- On a command ring in good order, push returns the slot it wrote, for an entry whose control word has
-- 32 bits: its parameter, its status and the upper 31 bits of its control word are there, with the ring's
-- cycle bit in the lowest. The other slots are as before, the index has moved on by one modulo 16, and the
-- cycle bit has flipped exactly if the index wrapped.
pub push-Pushed :
    (r : CommandRing) (trb : Trb)
    → trb.control < 2 ^ 32
    → IsRing r
    → (r' : CommandRing) × (push r trb ≡ returned (r.enqueue_index, r')) × Pushed r trb r'
unfolding push
push-Pushed r trb h ok =
    enqueue-Pushed r trb (with_cycle r.cycle_bit trb) (with_cycle-IsEntry r.cycle_bit trb h) ok
