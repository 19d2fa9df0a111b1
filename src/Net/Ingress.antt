-- ===== src/Net/Ingress.antt =====
-- unaos/crates/net/src/lib.rs: the router that takes a frame up the stack.
use una_os.Prelude.{
  ℕ, ◌≡◌, refl, List, none, some, length, ltb, Bool-cases, inl, inr, arith, Option-cases, ap, ◌∙◌,
  ◌-◌, slice, get_or, from_be_u16,
}
use una_os.Prelude.Outcome.{Outcome, returned, ◌>>=◌, range_in, index_in}
use una_os.Net.Ethernet
use una_os.Net.Ethernet.{EthernetFrame, EtherType, ethertype, ethertype_raw, ether_type}
use una_os.Net.Arp.{ArpStateMachine, process_packet}
use una_os.Net.Ipv4
use una_os.Net.Arp.Reply.{IsMachine, process_packet-answers}
use una_os.Net.Ipv4.{verify_checksum}
use una_os.Net.Ipv4.Payload.{new_returns, verify_checksum_returns}

unfoldable dispatch : ArpStateMachine → List ℕ → EtherType → Outcome (Unit {0})
unfolding process_packet Ipv4.new verify_checksum
dispatch m payload EtherType.arp = do reply ← process_packet m payload; returned tt
dispatch m payload EtherType.ipv4 = do
  header ← Ipv4.new payload
  elim header [ none ↦ returned tt | some h ↦ (do valid ← verify_checksum h; returned tt) ]
dispatch m payload _ = returned tt

pub ingress : ArpStateMachine → List ℕ → Outcome (Unit {0})
unfolding Ethernet.new Ethernet.payload ethertype dispatch
ingress m buffer = elim (Ethernet.new buffer) [
  | none ↦ returned tt
  | some frame ↦ do
    payload ← Ethernet.payload frame
    kind ← ethertype frame
    dispatch m payload kind
]

dispatch_returns :
    (m : ArpStateMachine) (payload : List ℕ) (kind : EtherType)
    → IsMachine m
    → dispatch m payload kind ≡ returned tt
unfolding dispatch
dispatch_returns m payload EtherType.arp h = rw (process_packet-answers m payload h)
dispatch_returns m payload EtherType.ipv4 h =
    let (o, e) = new_returns payload in
    elim (Option-cases o) [
      | inl k ↦ rw (e, k)
      | inr k ↦
          let v = k.0 in
          let (valid, r) = verify_checksum_returns payload v (e ∙ ap returned k.1) in rw (e, k.1, r)
    ]
dispatch_returns m payload EtherType.ipv6 h = refl
dispatch_returns m payload (EtherType.unknown n) h = refl

-- No frame makes the router panic: every index and slice on its way, through Ethernet, ARP and
-- IPv4, is in bounds.
pub ingress_returns :
    (m : ArpStateMachine) (buffer : List ℕ) → IsMachine m → ingress m buffer ≡ returned tt
unfolding ingress Ethernet.new Ethernet.payload ethertype ethertype_raw
ingress_returns m buffer h = elim (Bool-cases (ltb (length buffer) 14)) [
  | inl e ↦ rw (e, ingress, Ethernet.new)
  | inr e ↦
      rw
        (
          e,
          ingress,
          Ethernet.new,
          range_in buffer 14 (length buffer) (ground arith) (omega arith),
          index_in buffer 12 (ground arith),
          index_in buffer 13 (ground arith),
        )
        (dispatch_returns m (slice buffer 14 (length buffer - 14))
          (ether_type (from_be_u16 (get_or buffer 12 0) (get_or buffer 13 0))) h)
]
