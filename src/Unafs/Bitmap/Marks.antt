-- ===== src/Unafs/Bitmap/Marks.antt =====
-- `new`, `mark_used` and `free` by what they do to the blocks in use.
use una_os.Prelude.{ℕ, ◌*◌, ◌/◌, ◌%◌, ◌<◌, List, ◌≡◌, refl, arith, Bool, true, false}
use una_os.Prelude.{inl, inr, Bool-cases, ltb, ◌==◌, ==→eq, if◌then◌else◌}
use una_os.Prelude.{length, get_or, set, IsByte, length-set, length-replicate}
use una_os.Prelude.{get_or-set_self, get_or-set_ne, get_or-replicate, All-set, All-get_or}
use una_os.Prelude.{All-replicate}
use una_os.Prelude.Bits.{bit, set_bit, clear_bit, bit-set_bit, bit-clear_bit, bit-zero}
use una_os.Prelude.Bits.{set_bit-lt, clear_bit-lt}
use una_os.Unafs.Bitmap.{SpaceMap, new, div_ceil, mark_used, free}
use una_os.Unafs.Bitmap.Used.{used, used_at, IsValid}

-- A new map is valid and has no block in use.
pub new-IsValid : (n : ℕ) → IsValid (new n)
unfolding new
new-IsValid n = record {
  bytes = All-replicate IsByte (div_ceil n 8) 0 (omega arith);
  covers = omega (arith, length-replicate {A = ℕ} (div_ceil n 8) 0);
}

pub used-new : (n j : ℕ) → used (new n) j ≡ false
unfolding new
used-new n j =
    rw (get_or-replicate {A = ℕ} (div_ceil n 8) (j / 8) 0) (bit-zero (j % 8) (omega arith))

div_ne : (id j : ℕ) → id / 8 ≡ j / 8 → id % 8 ≡ j % 8 → id ≡ j
div_ne id j h k = omega arith

-- One byte of the map is replaced by one that differs in the bit of block `id` at most.
used-set :
    (bits : List ℕ) (id byte : ℕ) (v : Bool)
    → id / 8 < length bits
    → ((k : ℕ) → k < 8 → bit byte k ≡ (if id % 8 == k then v else bit (get_or bits (id / 8) 0) k))
    → (j : ℕ) → used_at (set bits (id / 8) byte) j ≡ (if id == j then v else used_at bits j)
used-set bits id byte v inside hb j = elim (Bool-cases (id / 8 == j / 8)) [
  | inl same ↦ ground (
    arith,
    hb (j % 8) (omega arith),
    get_or-set_self bits (id / 8) byte 0 inside,
    div_ne id j,
    ==→eq (id / 8) (j / 8) same,
  )
  | inr other ↦ ground (arith, get_or-set_ne bits (id / 8) (j / 8) byte 0)
]

-- `mark_used` puts exactly that block in use, where the map has a bit for it.
pub used-mark_used :
    (m : SpaceMap) (id j : ℕ)
    → IsValid m
    → id < 8 * length m.bits
    → used (mark_used id m) j ≡ (if id == j then true else used m j)
unfolding mark_used
used-mark_used m id j v h =
    rw (ltb-in, mark_used)
      (used-set m.bits id (set_bit (get_or m.bits (id / 8) 0) (id % 8)) true (omega arith)
        (λ k hk.
          bit-set_bit (get_or m.bits (id / 8) 0) (id % 8)
            (All-get_or IsByte m.bits (id / 8) 0 v.bytes (omega arith)) (omega arith) k hk)
        j)
  where
    ltb-in : ltb (id / 8) (length m.bits) ≡ true
    ltb-in = ground arith

-- `free` takes exactly that block out of use, where the map has a bit for it.
pub used-free :
    (m : SpaceMap) (id j : ℕ)
    → IsValid m
    → id < 8 * length m.bits
    → used (free id m) j ≡ (if id == j then false else used m j)
unfolding free
used-free m id j v h =
    rw (ltb-in, free)
      (used-set m.bits id (clear_bit (get_or m.bits (id / 8) 0) (id % 8)) false (omega arith)
        (λ k hk.
          bit-clear_bit (get_or m.bits (id / 8) 0) (id % 8)
            (All-get_or IsByte m.bits (id / 8) 0 v.bytes (omega arith)) (omega arith) k hk)
        j)
  where
    ltb-in : ltb (id / 8) (length m.bits) ≡ true
    ltb-in = ground arith

-- Both ignore a block that has no bit, and neither changes the size of the map.
pub mark_used-IsValid :
    (m : SpaceMap) (id : ℕ)
    → IsValid m
    → IsValid (mark_used id m)
      × (length (mark_used id m).bits ≡ length m.bits)
      × ((mark_used id m).block_count ≡ m.block_count)
unfolding mark_used
mark_used-IsValid m id v = elim (Bool-cases (ltb (id / 8) (length m.bits))) [
  | inl inside ↦
      rw (inside, mark_used)
        (
          record {
            bytes = All-set IsByte m.bits (id / 8) _ v.bytes (
                set_bit-lt _ _ (All-get_or IsByte m.bits (id / 8) 0 v.bytes (omega arith))
                  (omega arith));
            covers = omega (
              arith,
              v.covers,
              length-set m.bits (id / 8) (set_bit (get_or m.bits (id / 8) 0) (id % 8)),
            );
          },
          length-set m.bits (id / 8) _,
          refl,
        )
  | inr outside ↦ rw (outside, mark_used) (v, refl, refl)
]

pub free-IsValid :
    (m : SpaceMap) (id : ℕ)
    → IsValid m
    → IsValid (free id m)
      × (length (free id m).bits ≡ length m.bits)
      × ((free id m).block_count ≡ m.block_count)
unfolding free
free-IsValid m id v = elim (Bool-cases (ltb (id / 8) (length m.bits))) [
  | inl inside ↦
      rw (inside, free)
        (
          record {
            bytes = All-set IsByte m.bits (id / 8) _ v.bytes (
                clear_bit-lt _ _ (All-get_or IsByte m.bits (id / 8) 0 v.bytes (omega arith))
                  (omega arith));
            covers = omega (
              arith,
              v.covers,
              length-set m.bits (id / 8) (clear_bit (get_or m.bits (id / 8) 0) (id % 8)),
            );
          },
          length-set m.bits (id / 8) _,
          refl,
        )
  | inr outside ↦ rw (outside, free) (v, refl, refl)
]
