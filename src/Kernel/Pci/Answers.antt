-- ===== src/Kernel/Pci/Answers.antt =====
-- unaos/crates/kernel/src/pci.rs: what a scan is to answer at a slot, a function and a device.
use una_os.Prelude.{ℕ, ◌+◌, ◌*◌, ◌/◌, ◌%◌, ◌^◌, ◌<◌, ◌≤◌, ◌≡◌, refl, arith, ◌∙◌, Option, none, some}
use una_os.Prelude.{bit_and, ◌==◌, Bool, true, false, not, ◌&&◌, ◌||◌, if◌then◌else◌}
use una_os.Prelude.Bits.Digits.{bit_and_window}
use una_os.Prelude.State.{First}
use una_os.Kernel.Pci.{is_xhci_class, function_count}
use una_os.Kernel.Pci.Access.{selector, bar}

-- A function is there where its vendor is not all ones.
abbrev pub present : (ℕ → ℕ) → ℕ → ℕ → ℕ → Bool
present S bus device func = not (S (selector bus device func 0) % 2 ^ 16 == 0xFFFF)

-- The answer of a slot: its first function, where it is there and has the class.
abbrev pub Slot : (ℕ → ℕ) → ℕ → ℕ → ℕ → ℕ → Option (ℕ × ℕ × ℕ) → Type 0
Slot S class subclass bus slot r =
    let class_reg = S (selector bus slot 0 2) in
    r ≡ (
      if present S bus slot 0
        && class_reg / 2 ^ 24 == class
        && class_reg / 2 ^ 16 % 2 ^ 8 == subclass
      then some (bus, slot, 0)
      else none)

-- The answer of a function: its base address, where it is an xHCI controller.
abbrev pub Function : (ℕ → ℕ) → ℕ → ℕ → ℕ → Option ℕ → Type 0
Function S bus device func r = r ≡ (
    if (func == 0 || present S bus device func)
      && S (selector bus device func 2) / 2 ^ 8 == 0x0C0330
    then some (bar S bus device func)
    else none)

-- Eight functions where the highest bit of the header type is set.
abbrev pub functions : (ℕ → ℕ) → ℕ → ℕ → ℕ
functions S bus device = if S (selector bus device 0 3) / 2 ^ 23 % 2 == 1 then 8 else 1

-- The answer of a device: that of its first function with one.
pub data Device (S : ℕ → ℕ) (bus device : ℕ) : Option ℕ → Type 0 where
  absent : present S bus device 0 ≡ false → Device S bus device none
  scanned :
      {r : Option ℕ}
      → present S bus device 0 ≡ true
      → First 0 (functions S bus device) (Function S bus device) r
      → Device S bus device r

pub vendor_masked : (x : ℕ) → bit_and x 0xFFFF ≡ x % 2 ^ 16
vendor_masked x = bit_and_window 0 16 x ∙ omega arith

pub is_xhci_class_lem : (x : ℕ) → x < 2 ^ 32 → is_xhci_class x ≡ (x / 2 ^ 8 == 0x0C0330)
unfolding is_xhci_class
is_xhci_class_lem x h =
    let a : bit_and (x / 2 ^ 24) 0xFF ≡ x / 2 ^ 24 =
      bit_and_window 0 8 (x / 2 ^ 24) ∙ omega arith in
    let b : bit_and (x / 2 ^ 16) 0xFF ≡ x / 2 ^ 16 % 2 ^ 8 =
      bit_and_window 0 8 (x / 2 ^ 16) ∙ omega arith in
    let c : bit_and (x / 2 ^ 8) 0xFF ≡ x / 2 ^ 8 % 2 ^ 8 =
      bit_and_window 0 8 (x / 2 ^ 8) ∙ omega arith in
    rw (a, b, c) (ground arith)

pub function_count_lem : (x : ℕ) → function_count x ≡ (if x / 2 ^ 23 % 2 == 1 then 8 else 1)
unfolding function_count
function_count_lem x =
    let a : bit_and (x / 2 ^ 16) 0xFF ≡ x / 2 ^ 16 % 2 ^ 8 =
      bit_and_window 0 8 (x / 2 ^ 16) ∙ omega arith in
    let b : bit_and (x / 2 ^ 16 % 2 ^ 8) 0x80 ≡ x / 2 ^ 23 % 2 * 2 ^ 7 =
      bit_and_window 7 1 (x / 2 ^ 16 % 2 ^ 8) ∙ omega arith in
    rw (a, b) (ground arith)

pub twice_negated : (b : Bool) → b ≡ not (not b)
twice_negated true = refl
twice_negated false = refl

pub denied : (a b : Bool) → a ≡ not b → a ≡ true → b ≡ false
denied a true e t = absurd (cc (e, t))
denied a false e t = refl

pub affirmed : (a b : Bool) → a ≡ not b → a ≡ false → b ≡ true
affirmed a true e t = refl
affirmed a false e t = absurd (cc (e, t))

pub functions-le : (S : ℕ → ℕ) (bus device : ℕ) → functions S bus device ≤ 8
functions-le S bus device = ground arith

pub from_zero : (n m : ℕ) → n ≡ m → 0 + n ≡ m
from_zero n m e = omega (arith, e)
