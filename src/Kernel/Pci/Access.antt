-- ===== src/Kernel/Pci/Access.antt =====
-- unaos/crates/kernel/src/pci.rs: what the accesses read, on a machine with the configuration ports.
use una_os.Prelude.{ℕ, ◌+◌, ◌*◌, ◌/◌, ◌%◌, ◌^◌, ◌<◌, ◌≡◌, refl, arith, ◌∙◌, ap, sym}
use una_os.Prelude.{bit_or, bit_and, ◌==◌, if◌then◌else◌}
use una_os.Prelude.Bits.Digits.{bit_or_low, bit_or_above, bit_and_window}
use una_os.Prelude.State.{◌>>=◌, pure, Gives, Gives-pure, Gives-bind, Gives-if}
use una_os.Kernel.Pci.{Ports, config_address, read_word, read_config_32, read_config_16, read_bar0}
use una_os.Kernel.Pci.{get_bar_address}

-- Where the address port selects a register.
abbrev pub selector : ℕ → ℕ → ℕ → ℕ → ℕ
selector bus device func register =
    0x80000000 + bus * 0x10000 + device * 0x800 + func * 0x100 + register * 4

pub config_address-selector :
    (bus device func offset : ℕ)
    → bus < 256
    → device < 32
    → func < 8
    → offset < 256
    → config_address bus device func offset ≡ selector bus device func (offset / 4)
unfolding config_address
config_address-selector bus device func offset hb hd hf ho =
    let e0 = bit_or_low 31 1 0x80000000 (bus * 2 ^ 16) refl (omega arith) in
    let e1 =
      bit_or_low 16 (0x8000 + bus) (0x80000000 + bus * 2 ^ 16) (device * 2 ^ 11) (omega arith)
        (omega arith) in
    let e2 =
      bit_or_low 11 (0x100000 + bus * 32 + device) (0x80000000 + bus * 2 ^ 16 + device * 2 ^ 11)
        (func * 2 ^ 8) (omega arith) (omega arith) in
    let e3 =
      bit_or_low 8 (0x800000 + bus * 256 + device * 8 + func)
        (0x80000000 + bus * 2 ^ 16 + device * 2 ^ 11 + func * 2 ^ 8) (offset / 4 * 4) (omega arith)
        (omega arith) in
    let m : bit_and offset 0xFC ≡ offset / 4 * 4 = bit_and_window 2 6 offset ∙ omega arith in
    rw (m, e0, e1, e2, e3) (omega arith)

-- The configuration mechanism of the PCI bus: the data port gives the register of 32 bits that the
-- address port selects, its upper half at the port two above, and a read changes no register.
pub record HasMechanism (M : Type 0) (ports : Ports M) : Type 0 where
  pub space : M → ℕ → ℕ
  pub is_u32 : (m : M) (address : ℕ) → space m address < 2 ^ 32
  pub read_all :
      (m : M) (bus device func register : ℕ)
      → bus < 256
      → device < 32
      → func < 8
      → register < 64
      → let address = selector bus device func register in
        let at = (ports.write_u32 0xCF8 address m).1 in
        ((ports.read_u32 0xCFC at).0 ≡ space m address)
        × (space (ports.read_u32 0xCFC at).1 ≡ space m)
  pub read_lower :
      (m : M) (bus device func register : ℕ)
      → bus < 256
      → device < 32
      → func < 8
      → register < 64
      → let address = selector bus device func register in
        let at = (ports.write_u32 0xCF8 address m).1 in
        ((ports.read_u16 0xCFC at).0 ≡ space m address % 2 ^ 16)
        × (space (ports.read_u16 0xCFC at).1 ≡ space m)
  pub read_upper :
      (m : M) (bus device func register : ℕ)
      → bus < 256
      → device < 32
      → func < 8
      → register < 64
      → let address = selector bus device func register in
        let at = (ports.write_u32 0xCF8 address m).1 in
        ((ports.read_u16 0xCFE at).0 ≡ space m address / 2 ^ 16)
        × (space (ports.read_u16 0xCFE at).1 ≡ space m)

-- What the base address register holds: the lowest four bits are flags, and for the type of 64 bits the
-- next register is the upper half.
abbrev pub bar : (ℕ → ℕ) → ℕ → ℕ → ℕ → ℕ
bar S bus device func =
    let low = S (selector bus device func 4) in
    if low / 2 % 4 == 2
    then low / 16 * 16 + S (selector bus device func 5) * 2 ^ 32
    else low / 16 * 16

flags_masked : (x : ℕ) → x < 2 ^ 32 → bit_and x 0xFFFFFFF0 ≡ x / 16 * 16
flags_masked x h = bit_and_window 4 28 x ∙ omega arith

type_bits_masked : (x : ℕ) → (bit_and x 0x06 == 0x04) ≡ (x / 2 % 4 == 2)
type_bits_masked x =
    let w : bit_and x 6 ≡ x / 2 % 4 * 2 = bit_and_window 1 2 x in rw w (ground arith)

module _ {M : Type 0} ⦃ports : Ports M⦄ (h : HasMechanism M ports) (S : ℕ → ℕ) where
  module _ (bus device func : ℕ) (hb : bus < 256) (hd : device < 32) (hf : func < 8) where
    module _ (offset : ℕ) (ho : offset < 256) where
      pub read_word-register :
          Gives h.space S
            (read_word bus device func offset)
            (λ v. v ≡ S (selector bus device func (offset / 4)))
      unfolding read_word
      read_word-register = record {
        run = λ m e.
            let a = config_address-selector bus device func offset hb hd hf ho in
            let r = h.read_all m bus device func (offset / 4) hb hd hf (omega arith) in
            rw a (r.0 ∙ ap (λ s. s (selector bus device func (offset / 4))) e, r.1 ∙ e);
      }

      pub read_config_16-lower :
          offset / 2 % 2 ≡ 0
          → Gives h.space S
              (read_config_16 bus device func offset)
              (λ v. v ≡ S (selector bus device func (offset / 4)) % 2 ^ 16)
      unfolding read_config_16
      read_config_16-lower half = record {
        run = λ m e.
            let a = config_address-selector bus device func offset hb hd hf ho in
            let port : bit_and offset 2 ≡ 0 = bit_and_window 1 1 offset ∙ omega arith in
            let r = h.read_lower m bus device func (offset / 4) hb hd hf (omega arith) in
            rw (a, port)
              (r.0 ∙ ap (λ s. s (selector bus device func (offset / 4)) % 2 ^ 16) e, r.1 ∙ e);
      }

      pub read_config_16-upper :
          offset / 2 % 2 ≡ 1
          → Gives h.space S
              (read_config_16 bus device func offset)
              (λ v. v ≡ S (selector bus device func (offset / 4)) / 2 ^ 16)
      unfolding read_config_16
      read_config_16-upper half = record {
        run = λ m e.
            let a = config_address-selector bus device func offset hb hd hf ho in
            let port : bit_and offset 2 ≡ 2 = bit_and_window 1 1 offset ∙ omega arith in
            let r = h.read_upper m bus device func (offset / 4) hb hd hf (omega arith) in
            rw (a, port)
              (r.0 ∙ ap (λ s. s (selector bus device func (offset / 4)) / 2 ^ 16) e, r.1 ∙ e);
      }

    pub read_bar0-bar :
        ((address : ℕ) → S address < 2 ^ 32)
        → Gives h.space S (read_bar0 bus device func) (λ v. v ≡ bar S bus device func)
    unfolding read_bar0
    read_bar0-bar small =
        let Q : ℕ → Type 0 = λ v. v ≡ bar S bus device func in
        Gives-bind h.space S {R = Q} (read_word bus device func 0x10) _
          (read_word-register 0x10 (omega arith))
          (λ bar0 e.
            let low : bar0 < 2 ^ 32 = rw e (small (selector bus device func 4)) in
            let m = flags_masked bar0 low in
            let read_bits = sym (ap (λ x. x / 2 % 4 == 2) e) ∙ sym (type_bits_masked bar0) in
            Gives-if h.space S Q (bit_and bar0 0x06 == 0x04)
              (read_word bus device func 0x14
                >>= (λ bar1. pure (bit_or (bit_and bar0 0xFFFFFFF0) (bar1 * 2 ^ 32))))
              (pure (bit_and bar0 0xFFFFFFF0))
              (λ t.
                let k = read_bits ∙ t in
                Gives-bind h.space S {R = Q} (read_word bus device func 0x14) _
                  (read_word-register 0x14 (omega arith))
                  (λ bar1 f. Gives-pure h.space S Q _ (
                    bit_or_above 32 bar1 (bar1 * 2 ^ 32) (bit_and bar0 0xFFFFFFF0) refl
                      (rw m (omega arith))
                    ∙ rw (m, f, e, k))))
              (λ t. let k = read_bits ∙ t in Gives-pure h.space S Q _ (m ∙ rw (e, k))))

module _ {M : Type 0} ⦃ports : Ports M⦄ where
  -- On every machine, whatever its ports return, get_bar_address and read_bar0 return the same address
  -- and leave the machine in the same state, though they test the type of the register in two ways.
  pub get_bar_address-read_bar0 :
      (bus slot func : ℕ) (m : M) → get_bar_address bus slot func m ≡ read_bar0 bus slot func m
  unfolding get_bar_address read_bar0 read_word read_config_32
  get_bar_address-read_bar0 bus slot func m =
      let bar0 = (read_word bus slot func 0x10 m).0 in
      let shifted : bit_and (bar0 / 2) 3 ≡ bar0 / 2 % 4 =
        bit_and_window 0 2 (bar0 / 2) ∙ omega arith in
      rw (shifted, type_bits_masked bar0) refl
