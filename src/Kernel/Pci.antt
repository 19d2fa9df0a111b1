-- ===== src/Kernel/Pci.antt =====
-- unaos/crates/kernel/src/pci.rs. The I/O ports of the machine are a parameter; prints are left out.
pub mod Access
pub mod Answers
pub mod Scan
pub mod Command
pub mod Tests
use una_os.Prelude.{ℕ, ◌+◌, ◌*◌, ◌/◌, ◌%◌, ◌^◌, bit_or, bit_and, Option, none, some}
use una_os.Prelude.{Bool, true, false, not, ◌&&◌, ◌==◌, if◌then◌else◌}
use una_os.Prelude.State.{State, ◌>>=◌, ◌>>◌, pure, for_range}

-- `Port<u32>` and `Port<u16>`
pub record Ports (M : Type 0) : Type 0 where
  pub write_u32 : ℕ → ℕ → State M (Unit {0})
  pub read_u32 : ℕ → State M ℕ
  pub write_u16 : ℕ → ℕ → State M (Unit {0})
  pub read_u16 : ℕ → State M ℕ

pub config_address : ℕ → ℕ → ℕ → ℕ → ℕ
config_address bus device func offset =
    bit_or (bit_or (bit_or (bit_or 0x80000000 (bus * 2 ^ 16)) (device * 2 ^ 11)) (func * 2 ^ 8))
      (bit_and offset 0xFC)

-- The test of enumerate_buses for an xHCI controller.
pub is_xhci_class : ℕ → Bool
is_xhci_class class_reg =
    bit_and (class_reg / 2 ^ 24) 0xFF == 0x0C
    && bit_and (class_reg / 2 ^ 16) 0xFF == 0x03
    && bit_and (class_reg / 2 ^ 8) 0xFF == 0x30

-- `is_multi_function` and `max_func`, counted from 0
pub function_count : ℕ → ℕ
function_count header_type_reg =
    let header_type = bit_and (header_type_reg / 2 ^ 16) 0xFF in
    if not (bit_and header_type 0x80 == 0) then 8 else 1

module _ {M : Type 0} ⦃ports : Ports M⦄ where
  open ports use {write_u32, read_u32, write_u16, read_u16}

  pub read_word : ℕ → ℕ → ℕ → ℕ → State M ℕ
  unfolding config_address
  read_word bus device func offset = do
    write_u32 0xCF8 (config_address bus device func offset)
    read_u32 0xCFC

  pub read_config_32 : ℕ → ℕ → ℕ → ℕ → State M ℕ
  unfolding config_address
  read_config_32 bus slot func offset = do
    write_u32 0xCF8 (config_address bus slot func offset)
    read_u32 0xCFC

  pub read_config_16 : ℕ → ℕ → ℕ → ℕ → State M ℕ
  unfolding config_address
  read_config_16 bus slot func offset = do
    write_u32 0xCF8 (config_address bus slot func offset)
    read_u16 (0xCFC + bit_and offset 2)

  pub write_config_16 : ℕ → ℕ → ℕ → ℕ → ℕ → State M (Unit {0})
  unfolding config_address
  write_config_16 bus slot func offset value = do
    write_u32 0xCF8 (config_address bus slot func offset)
    write_u16 (0xCFC + bit_and offset 2) value

  pub read_bar0 : ℕ → ℕ → ℕ → State M ℕ
  unfolding read_word
  read_bar0 bus device func = do
    bar0 ← read_word bus device func 0x10
    if bit_and bar0 0x06 == 0x04
        then (do
          bar1 ← read_word bus device func 0x14
          pure (bit_or (bit_and bar0 0xFFFFFFF0) (bar1 * 2 ^ 32)))
        else pure (bit_and bar0 0xFFFFFFF0)

  -- The body of the loop over the functions.
  pub check_function : ℕ → ℕ → ℕ → State M (Option ℕ)
  unfolding read_word read_bar0 is_xhci_class
  check_function bus device func = do
    absent ←
        (if func == 0 then pure false else (do
          vendor_id_reg ← read_word bus device func 0x00
          pure (bit_and vendor_id_reg 0xFFFF == 0xFFFF)))
    if absent then pure none else (do
      class_reg ← read_word bus device func 0x08
      if is_xhci_class class_reg
          then (do addr ← read_bar0 bus device func; pure (some addr))
          else pure none)

  -- The body of the loop over the devices.
  pub check_device : ℕ → ℕ → State M (Option ℕ)
  unfolding read_word check_function function_count
  check_device bus device = do
    vendor_id_reg ← read_word bus device 0 0x00
    if bit_and vendor_id_reg 0xFFFF == 0xFFFF then pure none else (do
      header_type_reg ← read_word bus device 0 0x0C
      for_range (function_count header_type_reg) 0 (check_function bus device))

  pub enumerate_buses : State M (Option ℕ)
  unfolding check_device
  enumerate_buses = for_range 256 0 (λ bus. for_range 32 0 (check_device bus))

  -- The body of the loop over the slots.
  pub check_slot : ℕ → ℕ → ℕ → ℕ → State M (Option (ℕ × ℕ × ℕ))
  unfolding read_config_16
  check_slot target_class target_subclass bus slot = do
    vendor_id ← read_config_16 bus slot 0 0x00
    if vendor_id == 0xFFFF then pure none else (do
      class_word ← read_config_16 bus slot 0 0x0A
      if class_word / 2 ^ 8 % 2 ^ 8 == target_class && bit_and class_word 0xFF == target_subclass
          then pure (some (bus, slot, 0))
          else pure none)

  pub find_device : ℕ → ℕ → State M (Option (ℕ × ℕ × ℕ))
  unfolding check_slot
  find_device target_class target_subclass =
      for_range 256 0 (λ bus. for_range 32 0 (check_slot target_class target_subclass bus))

  pub get_bar_address : ℕ → ℕ → ℕ → State M ℕ
  unfolding read_config_32
  get_bar_address bus slot func = do
    bar0 ← read_config_32 bus slot func 0x10
    if bit_and (bar0 / 2) 0x03 == 0x02
        then (do
          bar1 ← read_config_32 bus slot func 0x14
          pure (bit_or (bit_and bar0 0xFFFFFFF0) (bar1 * 2 ^ 32)))
        else pure (bit_and bar0 0xFFFFFFF0)

  pub enable_bus_master : ℕ → ℕ → ℕ → State M (Unit {0})
  unfolding read_config_16 write_config_16
  enable_bus_master bus slot func = do
    current_val ← read_config_16 bus slot func 0x04
    write_config_16 bus slot func 0x04 (bit_or current_val 0x06)

  pub disable_interrupts : ℕ → ℕ → ℕ → State M (Unit {0})
  unfolding read_config_16 write_config_16
  disable_interrupts bus slot func = do
    current_val ← read_config_16 bus slot func 0x04
    write_config_16 bus slot func 0x04 (bit_or current_val (2 ^ 10))
