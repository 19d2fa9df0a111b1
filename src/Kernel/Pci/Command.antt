-- ===== src/Kernel/Pci/Command.antt =====
-- unaos/crates/kernel/src/pci.rs: the bits that are set in the command register.
use una_os.Prelude.{ℕ, ◌+◌, ◌*◌, ◌/◌, ◌%◌, ◌^◌, ◌<◌, ◌≡◌, refl, arith, ◌∙◌, ap, sym}
use una_os.Prelude.{bit_or, ◌==◌, ==→eq, Bool-cases, inl, inr, if◌then◌else◌}
use una_os.Prelude.{suc, ◌-◌, ◌||◌, ◌≢◌, Bool, true, false}
use Prim.Native.Nat.{max}
use una_os.Prelude.Bits.Places.{place_below, place_of_or, place_of_power}
use una_os.Prelude.Bits.Digits.{bit_or_digit, bit_or_nothing, bit_or_fields}
use una_os.Kernel.Pci.{
  Ports, read_config_16, write_config_16, enable_bus_master, disable_interrupts,
}
use una_os.Kernel.Pci.Access.{HasMechanism, selector, config_address-selector, read_config_16-lower}

-- Bits 1 and 2, and bit 10.
or_memory_and_master : (c : ℕ) → bit_or c 0x06 ≡ c / 8 * 8 + 6 + c % 2
or_memory_and_master c =
    let a = bit_or_digit c 6 in
    let b = bit_or_digit (c / 2) 3 in
    let d = bit_or_digit (c / 2 / 2) 1 in
    let e = bit_or_nothing (c / 2 / 2 / 2) in ground (arith, a, b, d, e)

or_disable : (c : ℕ) → bit_or c (2 ^ 10) ≡ c / 0x800 * 0x800 + 0x400 + c % 0x400
or_disable c =
    let a = bit_or_fields 10 (c / 0x400) (c % 0x400) 1 0 (omega arith) (omega arith) in
    let b = bit_or_digit (c / 0x400) 1 in
    let d = bit_or_nothing (c / 0x400 / 2) in
    let e = bit_or_nothing (c % 0x400) in
    let split : c ≡ c / 0x400 * 2 ^ 10 + c % 0x400 = omega arith in
    ap (λ t. bit_or t (2 ^ 10)) split ∙ a ∙ rw (b, d, e) (ground arith)

-- The bit at a place of the lower half is that of the whole.
place_of_half : (k x : ℕ) → k < 16 → x % 2 ^ 16 / 2 ^ k % 2 ≡ x / 2 ^ k % 2
place_of_half k x h =
    let at : k + suc (15 - k) ≡ 16 = omega arith in
    let whole : x / 2 ^ 16 * 2 ^ 16 + x % 2 ^ 16 ≡ x = omega arith in
    let below : (x / 2 ^ 16 * 2 ^ 16 + x % 2 ^ 16) / 2 ^ k % 2 ≡ x % 2 ^ 16 / 2 ^ k % 2 =
      ap (λ t. (x / 2 ^ 16 * 2 ^ t + x % 2 ^ 16) / 2 ^ k % 2) (sym at)
      ∙ place_below k (15 - k) (x / 2 ^ 16) (x % 2 ^ 16) in
    sym below ∙ ap (λ t. t / 2 ^ k % 2) whole

abbrev memory_and_master : ℕ → Bool
memory_and_master k = k == 1 || k == 2

place_of_six : (k : ℕ) → 6 / 2 ^ k % 2 ≡ (if memory_and_master k then 1 else 0)
place_of_six k =
    place_of_or k (2 ^ 1) (2 ^ 2) ∙ ground (arith, place_of_power 1 k, place_of_power 2 k)

-- The function is there, and its command register, number 1, implements bits 1, 2 and 10. A bit that
-- is not implemented keeps its value when the register is written, and so does the status in the
-- upper half. No other register changes.
pub record HasCommand {M : Type 0} (ports : Ports M) (h : HasMechanism M ports) (bus slot func : ℕ)
    : Type 0 where
  pub implements : ℕ → Bool
  pub memory : implements 1 ≡ true
  pub master : implements 2 ≡ true
  pub interrupts : implements 10 ≡ true
  pub write :
      (m : M) (v : ℕ)
      → v < 2 ^ 16
      → let address = selector bus slot func 1 in
        let at = (ports.write_u32 0xCF8 address m).1 in
        let before = h.space m in
        let after = h.space (ports.write_u16 0xCFC v at).1 in
        ((k : ℕ)
          → k < 16
          → after address / 2 ^ k % 2
            ≡ (if implements k then v / 2 ^ k % 2 else before address / 2 ^ k % 2))
        × (after address / 2 ^ 16 ≡ before address / 2 ^ 16)
        × ((a : ℕ) → a ≢ address → after a ≡ before a)

-- The registers after some bits of the lower half of one were set.
pub record AreSet (address : ℕ) (bits : ℕ → Bool) (before after : ℕ → ℕ) : Type 0 where
  pub lower :
      (k : ℕ)
      → k < 16
      → after address / 2 ^ k % 2 ≡ (if bits k then 1 else before address / 2 ^ k % 2)
  pub upper : after address / 2 ^ 16 ≡ before address / 2 ^ 16
  pub others : (a : ℕ) → a ≢ address → after a ≡ before a

module _ {M : Type 0} ⦃ports : Ports M⦄ (h : HasMechanism M ports) (m : M) (bus slot func : ℕ)
    (hb : bus < 256) (hs : slot < 32) (hf : func < 8)
    (command : HasCommand ports h bus slot func) where
  or_command :
      (mask : ℕ) (bits : ℕ → Bool)
      → ((k : ℕ) → mask / 2 ^ k % 2 ≡ (if bits k then 1 else 0))
      → ((k : ℕ) → bits k ≡ true → command.implements k ≡ true)
      → bit_or (h.space m (selector bus slot func 1) % 2 ^ 16) mask < 2 ^ 16
      → let r = read_config_16 bus slot func 0x04 m in
        AreSet
          (selector bus slot func 1)
          bits
          (h.space m)
          (h.space (write_config_16 bus slot func 0x04 (bit_or r.0 mask) r.1).1)
  unfolding write_config_16
  or_command mask bits digit implemented small =
      let r = read_config_16 bus slot func 0x04 m in
      let address = selector bus slot func 1 in
      let old = h.space m address in
      let g =
        (read_config_16-lower h (h.space m) bus slot func hb hs hf 0x04 (omega arith) refl).run m
          refl in
      let e = config_address-selector bus slot func 0x04 hb hs hf (omega arith) in
      let v = bit_or (old % 2 ^ 16) mask in
      let written : bit_or r.0 mask ≡ v = ap (λ t. bit_or t mask) g.0 in
      let w = command.write r.1 v small in
      let now = ap (λ (S : ℕ → ℕ). S address) g.1 in
      rw (written, e)
        (record {
          lower = λ k hk. elim (Bool-cases (command.implements k)) [
            | inl there ↦
                let place : v / 2 ^ k % 2 ≡ max (old / 2 ^ k % 2) (mask / 2 ^ k % 2) =
                  place_of_or k (old % 2 ^ 16) mask
                  ∙ ap (λ t. max t (mask / 2 ^ k % 2)) (place_of_half k old hk) in
                w.0 k hk ∙ rw (there, place, digit k) (ground arith)
            | inr absent ↦
                let unset : bits k ≡ false = elim (Bool-cases (bits k)) [
                  | inl t ↦ absurd (cc (absent, implemented k t))
                  | inr f ↦ f
                ] in
                w.0 k hk ∙ rw (absent, unset, now) refl
          ];
          upper = w.1 ∙ ap (λ t. t / 2 ^ 16) now;
          others = λ a ne. w.2 a ne ∙ ap (λ (S : ℕ → ℕ). S a) g.1;
        })

  -- On a machine with the configuration mechanism, for a function that is there and implements bits
  -- 1, 2 and 10 of its command register, whatever the others do, enable_bus_master sets bits 1 and 2 of
  -- that register and disable_interrupts sets bit 10; every other bit of the register, its upper half
  -- and every other register are as before.
  pub command-set :
      AreSet
        (selector bus slot func 1)
        (λ k. k == 1 || k == 2)
        (h.space m)
        (h.space (enable_bus_master bus slot func m).1)
      × AreSet
          (selector bus slot func 1)
          (λ k. k == 10)
          (h.space m)
          (h.space (disable_interrupts bus slot func m).1)
  unfolding enable_bus_master disable_interrupts
  command-set =
      let old = h.space m (selector bus slot func 1) % 2 ^ 16 in
      let e = or_memory_and_master old in
      let f = or_disable old in
      (
        or_command 0x06 memory_and_master place_of_six
            (λ k t. elim (Bool-cases (k == 1)) [
              | inl one ↦ ap command.implements (==→eq k 1 one) ∙ command.memory
              | inr other ↦
                  let two : (k == 2) ≡ true = ground (arith, t) in
                  ap command.implements (==→eq k 2 two) ∙ command.master
            ])
            (omega arith),
        or_command (2 ^ 10) (λ k. k == 10) (place_of_power 10)
            (λ k t. ap command.implements (==→eq k 10 t) ∙ command.interrupts) (omega arith),
      )
