-- ===== src/Net/Ethernet.antt =====
-- unaos/crates/net/src/ethernet.rs: Ethernet II frames.
use una_os.Prelude.{ℕ, List, Option, none, some, length, ltb, ◌==◌, if◌then◌else◌}
use una_os.Prelude.{from_be_u16}
use una_os.Prelude.Outcome.{Outcome, returned, ◌>>=◌, index, range}

pub data EtherType : Type 0 where
  ipv4 arp ipv6 : EtherType
  unknown : ℕ → EtherType

unfoldable pub ether_type : ℕ → EtherType
ether_type value =
    if value == 0x0800
    then ipv4
    else if value == 0x0806
    then arp
    else if value == 0x86dd
    then ipv6
    else unknown value

pub record EthernetFrame : Type 0 where
  pub buffer : List ℕ

unfoldable pub new : List ℕ → Option EthernetFrame
new buffer = if ltb (length buffer) 14 then none else some (record { buffer = buffer })

unfoldable destination_mac : EthernetFrame → Outcome (List ℕ)
destination_mac f = range f.buffer 0 6

unfoldable source_mac : EthernetFrame → Outcome (List ℕ)
source_mac f = range f.buffer 6 12

unfoldable pub ethertype_raw : EthernetFrame → Outcome ℕ
ethertype_raw f = do hi ← index f.buffer 12; lo ← index f.buffer 13; returned (from_be_u16 hi lo)

unfoldable pub ethertype : EthernetFrame → Outcome EtherType
unfolding ethertype_raw
ethertype f = do raw ← ethertype_raw f; returned (ether_type raw)

unfoldable pub payload : EthernetFrame → Outcome (List ℕ)
payload f = range f.buffer 14 (length f.buffer)
