-- ===== src/Kernel/Pci/Scan.antt =====
-- unaos/crates/kernel/src/pci.rs: which device and which controller the scans return.
use una_os.Prelude.{ℕ, ◌/◌, ◌%◌, ◌^◌, ◌<◌, ◌≡◌, refl, arith, ◌∙◌, ap, sym, Option, none, some}
use una_os.Prelude.{bit_and, ◌==◌, Bool, true, false, not, ◌&&◌, ◌||◌, if◌then◌else◌}
use una_os.Prelude.Bits.Digits.{bit_and_window}
use una_os.Prelude.State.{◌>>=◌, pure, for_range, First, Gives, Gives-pure, Gives-bind, Gives-if}
use una_os.Prelude.State.{Gives-for_range, Gives-if_pure, Gives-weaken}
use una_os.Kernel.Pci.{Ports, is_xhci_class, function_count, read_word, read_config_16, read_bar0}
use una_os.Kernel.Pci.{check_function, check_device, enumerate_buses, check_slot, find_device}
use una_os.Kernel.Pci.Access.{HasMechanism, selector, read_word-register}
use una_os.Kernel.Pci.Access.{read_config_16-lower, read_config_16-upper, read_bar0-bar}
use una_os.Kernel.Pci.Answers.{present, Slot, Function, functions, Device, absent, scanned}
use una_os.Kernel.Pci.Answers.{
  vendor_masked, is_xhci_class_lem, function_count_lem, twice_negated, denied,
}
use una_os.Kernel.Pci.Answers.{affirmed, functions-le, from_zero}

module _ {M : Type 0} ⦃ports : Ports M⦄ (h : HasMechanism M ports) (S : ℕ → ℕ)
    (small : (address : ℕ) → S address < 2 ^ 32) where
  check_slot-Slot :
      (class subclass bus slot : ℕ)
      → bus < 256
      → slot < 32
      → Gives h.space S (check_slot class subclass bus slot) (Slot S class subclass bus slot)
  unfolding check_slot
  check_slot-Slot class subclass bus slot hb hs =
      let Q : Option (ℕ × ℕ × ℕ) → Type 0 = Slot S class subclass bus slot in
      Gives-bind h.space S {R = Q} (read_config_16 bus slot 0 0x00) _
        (read_config_16-lower h S bus slot 0 hb hs (omega arith) 0x00 (omega arith) refl)
        (λ vendor_id e.
          Gives-if h.space S Q (vendor_id == 0xFFFF) (pure none)
            (read_config_16 bus slot 0 0x0A >>= (λ class_word.
              if class_word / 2 ^ 8 % 2 ^ 8 == class && bit_and class_word 0xFF == subclass
              then pure (some (bus, slot, 0))
              else pure none))
            (λ t.
              let k : present S bus slot 0 ≡ false = ap not (sym (ap (λ x. x == 0xFFFF) e) ∙ t) in
              Gives-pure h.space S Q none (rw k refl))
            (λ t.
              let k : present S bus slot 0 ≡ true = ap not (sym (ap (λ x. x == 0xFFFF) e) ∙ t) in
              Gives-bind h.space S {R = Q} (read_config_16 bus slot 0 0x0A) _
                (read_config_16-upper h S bus slot 0 hb hs (omega arith) 0x0A (omega arith) refl)
                (λ class_word f.
                  let x = S (selector bus slot 0 2) in
                  let a : class_word / 2 ^ 8 % 2 ^ 8 ≡ x / 2 ^ 24 =
                    rw f (omega (arith, small (selector bus slot 0 2))) in
                  let b : bit_and class_word 0xFF ≡ x / 2 ^ 16 % 2 ^ 8 =
                    bit_and_window 0 8 class_word ∙ rw f (omega arith) in
                  Gives-if_pure h.space S
                    (class_word / 2 ^ 8 % 2 ^ 8 == class && bit_and class_word 0xFF == subclass)
                    (present S bus slot 0 && x / 2 ^ 24 == class && x / 2 ^ 16 % 2 ^ 8 == subclass)
                    (some (bus, slot, 0)) none (rw (k, a, b) refl))))

  module _ (bus device func : ℕ) (hb : bus < 256) (hd : device < 32) (hf : func < 8) where
    abbrev there : Bool
    there = func == 0 || present S bus device func

    absent_lem :
        Gives h.space S
          (if func == 0 then pure false else (do
            vendor_id_reg ← read_word bus device func 0x00
            pure (bit_and vendor_id_reg 0xFFFF == 0xFFFF)))
          (λ absent. absent ≡ not there)
    absent_lem =
        let Q : Bool → Type 0 = λ absent. absent ≡ not there in
        Gives-if h.space S Q (func == 0) (pure false)
          (read_word bus device func 0x00 >>= (λ v. pure (bit_and v 0xFFFF == 0xFFFF)))
          (λ t. Gives-pure h.space S Q false (rw t refl))
          (λ t.
            Gives-bind h.space S {R = Q} (read_word bus device func 0x00) _
              (read_word-register h S bus device func hb hd hf 0x00 (omega arith))
              (λ v e.
                Gives-pure h.space S Q (bit_and v 0xFFFF == 0xFFFF)
                  (let m = vendor_masked v in rw (m, e, t) (twice_negated _))))

    check_function-Function :
        Gives h.space S (check_function bus device func) (Function S bus device func)
    unfolding check_function
    check_function-Function =
        let Q : Option ℕ → Type 0 = Function S bus device func in
        let x = S (selector bus device func 2) in
        Gives-bind h.space S {Q = λ absent. absent ≡ not there} {R = Q} _ _ absent_lem (λ absent e.
          Gives-if h.space S Q absent (pure none)
            (read_word bus device func 0x08 >>= (λ class_reg.
              if is_xhci_class class_reg
              then (read_bar0 bus device func >>= (λ addr. pure (some addr)))
              else pure none))
            (λ t.
              let k : there ≡ false = denied absent there e t in
              Gives-pure h.space S Q none (rw k refl))
            (λ t.
              let k : there ≡ true = affirmed absent there e t in
              Gives-bind h.space S {R = Q} (read_word bus device func 0x08) _
                (read_word-register h S bus device func hb hd hf 0x08 (omega arith))
                (λ class_reg f.
                  let c : is_xhci_class class_reg ≡ (x / 2 ^ 8 == 0x0C0330) =
                    rw f (is_xhci_class_lem x (small (selector bus device func 2))) in
                  Gives-if h.space S Q (is_xhci_class class_reg)
                    (read_bar0 bus device func >>= (λ addr. pure (some addr))) (pure none)
                    (λ u.
                      let w = sym c ∙ u in
                      Gives-bind h.space S {R = Q} (read_bar0 bus device func) _
                        (read_bar0-bar h S bus device func hb hd hf small)
                        (λ addr g. Gives-pure h.space S Q (some addr) (rw (k, w, g) refl)))
                    (λ u. let w = sym c ∙ u in Gives-pure h.space S Q none (rw (k, w) refl)))))

  check_device-Device :
      (bus device : ℕ)
      → bus < 256
      → device < 32
      → Gives h.space S (check_device bus device) (Device S bus device)
  unfolding check_device
  check_device-Device bus device hb hd =
      let Q : Option ℕ → Type 0 = Device S bus device in
      Gives-bind h.space S {R = Q} (read_word bus device 0 0x00) _
        (read_word-register h S bus device 0 hb hd (omega arith) 0x00 (omega arith))
        (λ v e.
          let m : (bit_and v 0xFFFF == 0xFFFF) ≡ not (present S bus device 0) =
            let w = vendor_masked v in rw (w, e) (twice_negated _) in
          Gives-if h.space S Q (bit_and v 0xFFFF == 0xFFFF) (pure none)
            (read_word bus device 0 0x0C
              >>= (λ r. for_range (function_count r) 0 (check_function bus device)))
            (λ t. Gives-pure h.space S Q none (absent (denied _ _ m t)))
            (λ t.
              Gives-bind h.space S {R = Q} (read_word bus device 0 0x0C) _
                (read_word-register h S bus device 0 hb hd (omega arith) 0x0C (omega arith))
                (λ r f.
                  let count : function_count r ≡ functions S bus device =
                    rw f (function_count_lem _) in
                  Gives-weaken h.space S Q
                    (Gives-for_range h.space S (Function S bus device) (check_function bus device)
                      (functions S bus device)
                      (λ func hf.
                        let le = functions-le S bus device in
                        check_function-Function bus device func hb hd (omega arith))
                      (function_count r) 0 (from_zero _ _ count))
                    (λ a first. scanned (affirmed _ _ m t) first))))

  enumerate_buses-Gives :
      Gives h.space S enumerate_buses (First 0 256 (λ bus. First 0 32 (Device S bus)))
  unfolding enumerate_buses
  enumerate_buses-Gives =
      Gives-for_range h.space S (λ bus. First 0 32 (Device S bus)) _ 256
        (λ bus hb.
          Gives-for_range h.space S (Device S bus) (check_device bus) 32
            (λ device hd. check_device-Device bus device hb hd) 32 0 refl)
        256 0 refl

  find_device-Gives :
      (class subclass : ℕ)
      → Gives h.space S
          (find_device class subclass)
          (First 0 256 (λ bus. First 0 32 (Slot S class subclass bus)))
  unfolding find_device
  find_device-Gives class subclass =
      Gives-for_range h.space S (λ bus. First 0 32 (Slot S class subclass bus)) _ 256
        (λ bus hb.
          Gives-for_range h.space S (Slot S class subclass bus) (check_slot class subclass bus) 32
            (λ slot hs. check_slot-Slot class subclass bus slot hb hs) 32 0 refl)
        256 0 refl

module _ {M : Type 0} ⦃ports : Ports M⦄ (h : HasMechanism M ports) (m : M) where
  -- On a machine with the configuration mechanism, find_device returns the first slot, by bus and then by
  -- number, whose function 0 is there and has the class and the subclass, and nothing where there is no
  -- such slot. It changes no register.
  pub find_device-First :
      (class subclass : ℕ)
      → First 0 256
          (λ bus. First 0 32 (Slot (h.space m) class subclass bus))
          (find_device class subclass m).0
        × (h.space (find_device class subclass m).1 ≡ h.space m)
  find_device-First class subclass =
      (find_device-Gives h (h.space m) (h.is_u32 m) class subclass).run m refl

  -- On a machine with the configuration mechanism, the scan returns the base address of the first xHCI
  -- controller by bus, device and function, and nothing where there is none. It asks the devices whose
  -- function 0 is there, all eight functions where the header type has the bit for them and function 0
  -- alone elsewhere. The address is the register without its four flags, with the next register as its
  -- upper half for the type of 64 bits. It changes no register.
  pub enumerate_buses-First :
      First 0 256 (λ bus. First 0 32 (Device (h.space m) bus)) (enumerate_buses m).0
      × (h.space (enumerate_buses m).1 ≡ h.space m)
  enumerate_buses-First = (enumerate_buses-Gives h (h.space m) (h.is_u32 m)).run m refl
