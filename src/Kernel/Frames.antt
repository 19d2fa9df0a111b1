-- ===== src/Kernel/Frames.antt =====
-- unaos/crates/kernel/src/memory.rs: the allocator of physical frames from the boot memory map. The
-- kinds of regions belong to the boot loader; `usable` is the test that is made of one.
pub mod Order
use una_os.Prelude.{
  ℕ, zero, suc, ◌+◌, ◌-◌, ◌*◌, ◌/◌, List, [], ◌∷◌, ◌++◌, Option, Bool, true, false, get_elem?,
}
use una_os.Prelude.{if◌then◌else◌}

pub record MemoryRegion : Type 0 where
  pub start : ℕ
  pub end : ℕ
  pub usable : Bool

pub record BootInfoFrameAllocator : Type 0 where
  pub memory_map : List MemoryRegion
  pub next : ℕ

unfoldable pub init : List MemoryRegion → BootInfoFrameAllocator
init memory_map = record { memory_map = memory_map; next = 0 }

-- `PhysFrame::containing_address`
abbrev pub containing_address : ℕ → ℕ
containing_address addr = addr / 4096 * 4096

-- `n` steps of `(addr..).step_by(4096)`
unfoldable pub frames_from : ℕ → ℕ → List ℕ
frames_from zero addr = []
frames_from (suc n) addr = containing_address addr ∷ frames_from n (addr + 4096)

unfoldable pub region_frames : MemoryRegion → List ℕ
unfolding frames_from
region_frames r = frames_from ((r.end - r.start + 4095) / 4096) r.start

unfoldable pub usable_frames : List MemoryRegion → List ℕ
unfolding region_frames
usable_frames [] = []
usable_frames (r ∷ rs) = (if r.usable then region_frames r else []) ++ usable_frames rs

unfoldable pub allocate_frame : BootInfoFrameAllocator → Option ℕ × BootInfoFrameAllocator
unfolding usable_frames
allocate_frame a = (get_elem? (usable_frames a.memory_map) a.next, record a { next = a.next + 1 })
