-- ===== src/Kernel/Pci/Tests.antt =====
-- A machine with one xHCI controller, and the theorems about the scans at it.
use una_os.Prelude.{ℕ, ◌+◌, ◌*◌, ◌/◌, ◌%◌, ◌^◌, ◌≡◌, refl, arith, ◌==◌, if◌then◌else◌}
use una_os.Prelude.State.{First}
use una_os.Kernel.Pci.{Ports, read_bar0, get_bar_address, find_device, enumerate_buses}
use una_os.Kernel.Pci.{enable_bus_master, disable_interrupts}
use una_os.Kernel.Pci.Access.{HasMechanism, selector, get_bar_address-read_bar0}
use una_os.Kernel.Pci.Answers.{Slot, Device}
use una_os.Kernel.Pci.Scan.{find_device-First, enumerate_buses-First}
use una_os.Kernel.Pci.Command.{HasCommand, AreSet, command-set}
use una_os.Prelude.{suc, ◌-◌, ◌||◌, true, ap, sym, ◌∙◌}
use una_os.Prelude.Bits.Places.{place_below}

record Machine : Type 0 where
  pub selected : ℕ
  pub registers : ℕ → ℕ

abbrev now : Machine → ℕ
now m = m.registers m.selected % 2 ^ 32

instance abbrev machine_ports : Ports Machine
machine_ports = record {
  write_u32 = λ port v m. (tt, record m { selected = v });
  read_u32 = λ port m. (now m, m);
  write_u16 = λ port v m. (
    tt,
    record m {
      registers =
          λ a. if a == m.selected then now m / 2 ^ 16 * 2 ^ 16 + v % 2 ^ 16 else m.registers a;
    },
  );
  read_u16 = λ port m. (if port == 0xCFC then now m % 2 ^ 16 else now m / 2 ^ 16, m);
}

mechanism : HasMechanism Machine machine_ports
mechanism = record {
  space = λ m a. m.registers a % 2 ^ 32;
  is_u32 = λ m a. omega arith;
  read_all = λ m bus device func a hb hd hf ha. (refl, refl);
  read_lower = λ m bus device func a hb hd hf ha. (refl, refl);
  read_upper = λ m bus device func a hb hd hf ha. (refl, refl);
}

-- Device 3 of bus 0.
abbrev pc : Machine
pc = record {
  selected = 0;
  registers = λ a.
      if a == selector 0 3 0 0
      then 0x10001AF4
      else if a == selector 0 3 0 2
      then 0x0C033000
      else if a == selector 0 3 0 3
      then 0
      else if a == selector 0 3 0 4
      then 0xFEBC0004
      else if a == selector 0 3 0 5
      then 1
      else 0xFFFFFFFF;
}

find_device-First_example :
    First 0 256
      (λ bus. First 0 32 (Slot (mechanism.space pc) 0x0C 0x03 bus))
      (find_device 0x0C 0x03 pc).0
    × (mechanism.space (find_device 0x0C 0x03 pc).1 ≡ mechanism.space pc)
find_device-First_example = find_device-First mechanism pc 0x0C 0x03

enumerate_buses-First_example :
    First 0 256
      (λ bus. First 0 32 (Device (mechanism.space pc) bus))
      (enumerate_buses {M = Machine} pc).0
    × (mechanism.space (enumerate_buses pc).1 ≡ mechanism.space pc)
enumerate_buses-First_example = enumerate_buses-First mechanism pc

get_bar_address-read_bar0_example : get_bar_address 0 3 0 pc ≡ read_bar0 0 3 0 pc
get_bar_address-read_bar0_example = get_bar_address-read_bar0 0 3 0 pc

-- Every bit of the lower half of a register is stored.
pc_command : HasCommand machine_ports mechanism 0 3 0
unfolding mechanism
pc_command = record {
  implements = λ k. true;
  memory = refl;
  master = refl;
  interrupts = refl;
  write = λ m v h.
      let old = m.registers (selector 0 3 0 1) % 2 ^ 32 in
      let whole : (old / 2 ^ 16 * 2 ^ 16 + v % 2 ^ 16) % 2 ^ 32 ≡ old / 2 ^ 16 * 2 ^ 16 + v =
        omega arith in
      (
        λ k hk.
            let at : k + suc (15 - k) ≡ 16 = omega arith in
            ap (λ t. t / 2 ^ k % 2) whole
            ∙ ap (λ t. (old / 2 ^ 16 * 2 ^ t + v) / 2 ^ k % 2) (sym at)
            ∙ place_below k (15 - k) (old / 2 ^ 16) v,
        ap (λ t. t / 2 ^ 16) whole ∙ omega arith,
        λ a ne. ground (arith, ne),
      );
}

command-set_example :
    AreSet
      (selector 0 3 0 1)
      (λ k. k == 1 || k == 2)
      (mechanism.space pc)
      (mechanism.space (enable_bus_master 0 3 0 pc).1)
    × AreSet
        (selector 0 3 0 1)
        (λ k. k == 10)
        (mechanism.space pc)
        (mechanism.space (disable_interrupts 0 3 0 pc).1)
command-set_example =
    command-set mechanism pc 0 3 0 (omega arith) (omega arith) (omega arith) pc_command
