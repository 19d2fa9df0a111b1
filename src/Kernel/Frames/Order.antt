-- ===== src/Kernel/Frames/Order.antt =====
-- unaos/crates/kernel/src/memory.rs: no frame is handed out twice.
use una_os.Prelude.{ℕ, zero, suc, ◌+◌, ◌*◌, ◌%◌, ◌≤◌, ◌<◌, ◌≡◌, refl, arith, List, [], ◌∷◌, ◌++◌}
use una_os.Prelude.{some, get_elem?, Bool-cases, inl, inr, All}
use una_os.Kernel.Frames.{
  MemoryRegion, BootInfoFrameAllocator, frames_from, region_frames, usable_frames,
}
use una_os.Kernel.Frames.{allocate_frame}

-- Regions in the order of their addresses, from `lo` on, that do not overlap and start at a frame.
abbrev pub IsOrdered : ℕ → List MemoryRegion → Type 0
IsOrdered lo [] = Unit {0}
IsOrdered lo (r ∷ rs) =
    (lo ≤ r.start) × (r.start % 4096 ≡ 0) × (r.start ≤ r.end) × IsOrdered r.end rs

abbrev IsIncreasing : ℕ → List ℕ → Type 0
IsIncreasing lo [] = Unit {0}
IsIncreasing lo (x ∷ xs) = (lo ≤ x) × IsIncreasing (suc x) xs

IsIncreasing-weaken :
    (lo lo' : ℕ) (xs : List ℕ) → lo ≤ lo' → IsIncreasing lo' xs → IsIncreasing lo xs
IsIncreasing-weaken lo lo' [] h inc = tt
IsIncreasing-weaken lo lo' (x ∷ xs) h inc = (omega (arith, inc.0), inc.1)

IsIncreasing-append :
    (lo hi : ℕ) (xs ys : List ℕ)
    → lo ≤ hi
    → IsIncreasing lo xs
    → All (λ x. x < hi) xs
    → IsIncreasing hi ys
    → IsIncreasing lo (xs ++ ys)
IsIncreasing-append lo hi [] ys h inc below rest = IsIncreasing-weaken lo hi ys h rest
IsIncreasing-append lo hi (x ∷ xs) ys h inc below rest =
    (inc.0, IsIncreasing-append (suc x) hi xs ys below.0 inc.1 below.1 rest)

frames_from-IsIncreasing : (n addr : ℕ) → addr % 4096 ≡ 0 → IsIncreasing addr (frames_from n addr)
unfolding frames_from
frames_from-IsIncreasing zero addr h = tt
frames_from-IsIncreasing (suc n) addr h = (
  omega arith,
  IsIncreasing-weaken _ (addr + 4096) (frames_from n (addr + 4096)) (omega arith)
      (frames_from-IsIncreasing n (addr + 4096) (omega arith)),
)

frames_from-lt :
    (n addr end : ℕ) → addr + n * 4096 < end + 4096 → All (λ x. x < end) (frames_from n addr)
unfolding frames_from
frames_from-lt zero addr end h = tt
frames_from-lt (suc n) addr end h = (omega arith, frames_from-lt n (addr + 4096) end (omega arith))

usable_frames-IsIncreasing :
    (lo : ℕ) (rs : List MemoryRegion) → IsOrdered lo rs → IsIncreasing lo (usable_frames rs)
unfolding usable_frames region_frames
usable_frames-IsIncreasing lo [] h = tt
usable_frames-IsIncreasing lo (r ∷ rs) (above, aligned, ordered, rest) =
    let later = usable_frames-IsIncreasing r.end rs rest in
    elim (Bool-cases r.usable) [
      | inl e ↦ rw e (
          IsIncreasing-append lo r.end (region_frames r) (usable_frames rs) (omega arith)
            (IsIncreasing-weaken lo r.start (region_frames r) above
              (frames_from-IsIncreasing _ r.start aligned))
            (frames_from-lt _ r.start r.end (omega arith)) later)
      | inr e ↦ rw e (IsIncreasing-weaken lo r.end (usable_frames rs) (omega arith) later)
    ]

IsIncreasing-get :
    (lo : ℕ) (xs : List ℕ) (i f : ℕ) → IsIncreasing lo xs → get_elem? xs i ≡ some f → lo ≤ f
IsIncreasing-get lo [] i f inc e = absurd (cc e)
IsIncreasing-get lo (x ∷ xs) zero f inc e = let g : x ≡ f = cc e in omega (arith, inc.0)
IsIncreasing-get lo (x ∷ xs) (suc i) f inc e =
    omega (arith, inc.0, IsIncreasing-get (suc x) xs i f inc.1 e)

increasing_pair :
    (lo : ℕ) (xs : List ℕ) (i j f g : ℕ)
    → IsIncreasing lo xs
    → i < j
    → get_elem? xs i ≡ some f
    → get_elem? xs j ≡ some g
    → f < g
increasing_pair lo [] i j f g inc lt e k = absurd (cc e)
increasing_pair lo (x ∷ xs) i zero f g inc lt e k = absurd (omega arith)
increasing_pair lo (x ∷ xs) zero (suc j) f g inc lt e k =
    let h : x ≡ f = cc e in omega (arith, IsIncreasing-get (suc x) xs j g inc.1 k)
increasing_pair lo (x ∷ xs) (suc i) (suc j) f g inc lt e k =
    increasing_pair (suc x) xs i j f g inc.1 (omega arith) e k

-- The allocator after `n` more calls.
unfoldable pub after : ℕ → BootInfoFrameAllocator → BootInfoFrameAllocator
after zero a = a
after (suc n) a = after n (allocate_frame a).1

after-next :
    (n : ℕ) (a : BootInfoFrameAllocator)
    → ((after n a).memory_map ≡ a.memory_map) × ((after n a).next ≡ a.next + n)
unfolding after allocate_frame
after-next zero a = (refl, omega arith)
after-next (suc n) a = let h = after-next n (allocate_frame a).1 in (h.0, omega (arith, h.1))

-- On a memory map whose regions are in order, do not overlap and start at a frame, a frame that is
-- handed out later lies above every one handed out before, so that no frame is handed out twice.
pub allocate_frame-increasing :
    (a : BootInfoFrameAllocator) (n f g : ℕ)
    → IsOrdered 0 a.memory_map
    → (allocate_frame a).0 ≡ some f
    → (allocate_frame (after (suc n) a)).0 ≡ some g
    → f < g
unfolding allocate_frame
allocate_frame-increasing a n f g h e k =
    let (same, at) = after-next (suc n) a in
    increasing_pair 0 (usable_frames a.memory_map) a.next (a.next + suc n) f g
      (usable_frames-IsIncreasing 0 a.memory_map h) (omega arith) e (rw (same, at) at k)
