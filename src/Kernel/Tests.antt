-- ===== src/Kernel/Tests.antt =====
-- The theorems about the kernel on concrete rings, queues and memory maps.
use una_os.Prelude.{
  ℕ, zero, suc, ap, ◌∙◌, ◌<◌, ◌≤◌, ◌≡◌, refl, arith, List, [], ◌∷◌, ◌++◌, some, true, false,
  replicate,
}
use una_os.Prelude.{length, get_or}
use una_os.Prelude.Outcome.{returned}
use una_os.Kernel.Xhci.{Trb, CommandRing, EventRing, zero_trb, push, has_event}
use una_os.Kernel.Xhci.{cycle_state}
use una_os.Kernel.Xhci.Command.{IsRing, Pushed, push-Pushed}
use una_os.Kernel.Xhci.Event.{pop_all, slots, IsFreshFrom, after_lap, pop_all-lap}
use una_os.Kernel.Events.{cap, push_event, pop_event}
use una_os.Kernel.Events.Order.{Run, start, pushed, popped, Run-order}
use una_os.Kernel.Frames.{MemoryRegion, init, allocate_frame, usable_frames}
use una_os.Kernel.Frames.{region_frames, frames_from}
use una_os.Kernel.Frames.Order.{after, allocate_frame-increasing}

abbrev enable_slot : Trb
enable_slot = record { parameter = 0; status = 0; control = 9216 }

-- A ring whose next push wraps.
abbrev last_slot : CommandRing
last_slot = record { trbs = replicate 16 zero_trb; enqueue_index = 15; cycle_bit = true }

last_slot-IsRing : IsRing last_slot
last_slot-IsRing = record { slots = refl; index = omega arith }

push-Pushed_example :
    (r' : CommandRing) × (push last_slot enable_slot ≡ returned (15, r'))
    × Pushed last_slot enable_slot r'
push-Pushed_example = push-Pushed last_slot enable_slot (omega arith) last_slot-IsRing

abbrev completion : Trb
completion = record { parameter = 4096; status = 0; control = 33793 }

abbrev full_ring : EventRing
full_ring = record { trbs = replicate 16 completion; dequeue_index = 0; cycle_bit = true }

same_entry : (n j : ℕ) → j < n → get_or (replicate n completion) j zero_trb ≡ completion
same_entry zero j h = absurd (omega arith)
same_entry (suc n) zero h = refl
same_entry (suc n) (suc j) h = same_entry n j (omega arith)

completion-fresh : cycle_state completion ≡ true
completion-fresh = refl

full_ring-IsFreshFrom : IsFreshFrom 0 full_ring
full_ring-IsFreshFrom j le lt = ap cycle_state (same_entry 16 j lt) ∙ completion-fresh

pop_all-lap_example :
    (pop_all 17 full_ring ≡ (slots full_ring.trbs 0 16, after_lap full_ring))
    × (has_event (after_lap full_ring) ≡ false)
pop_all-lap_example = pop_all-lap full_ring refl full_ring-IsFreshFrom

-- Two events are pushed, a third meets the lock, and one is delivered.
two_and_one : Run {E = ℕ} (8 ∷ []) (7 ∷ 8 ∷ []) (7 ∷ [])
unfolding push_event pop_event
two_and_one = popped true (pushed false 9 (pushed true 8 (pushed true 7 start))) refl

Run-order_example : (length {A = ℕ} (8 ∷ []) ≤ cap) × (◌++◌ {A = ℕ} (7 ∷ []) (8 ∷ []) ≡ 7 ∷ 8 ∷ [])
Run-order_example = Run-order two_and_one

abbrev memory_map : List MemoryRegion
memory_map =
    record { start = 0; end = 4096; usable = false }
    ∷ record { start = 4096; end = 12288; usable = true }
    ∷ record { start = 20480; end = 28672; usable = true }
    ∷ []

first_frame : (allocate_frame (init memory_map)).0 ≡ some 4096
unfolding allocate_frame init usable_frames region_frames frames_from
first_frame = refl

third_frame : (allocate_frame (after 2 (init memory_map))).0 ≡ some 20480
unfolding after allocate_frame init usable_frames region_frames frames_from
third_frame = refl

allocate_frame-increasing_example : 4096 < 20480
unfolding init
allocate_frame-increasing_example =
    allocate_frame-increasing (init memory_map) 1 4096 20480
      (
        omega arith,
        omega arith,
        omega arith,
        (omega arith, omega arith, omega arith, (omega arith, omega arith, omega arith, tt)),
      )
      first_frame third_frame
