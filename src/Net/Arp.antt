-- ===== src/Net/Arp.antt =====
-- unaos/crates/net/src/arp.rs: ARP packets over Ethernet and IPv4, and the replies to requests.
pub mod Reply
use una_os.Prelude.{
  ℕ, ◌+◌, ◌*◌, List, [], ◌∷◌, ◌++◌, Option, none, some, Bool, true, false, not, ◌||◌,
}
use una_os.Prelude.{length, ltb, ◌==◌, if◌then◌else◌, from_be_u16, replicate, splice}
use una_os.Prelude.Text.{text_eq}
use una_os.Prelude.Outcome.{Outcome, returned, ◌>>=◌, index, range}

pub data ArpOperation : Type 0 where
  request reply : ArpOperation
  unknown : ℕ → ArpOperation

pub operation_of : ℕ → ArpOperation
operation_of value = if value == 1 then request else if value == 2 then reply else unknown value

pub is_request : ArpOperation → Bool
is_request request = true
is_request _ = false

pub record ArpPacket : Type 0 where
  pub buffer : List ℕ

pub new : List ℕ → Option ArpPacket
new buffer = if ltb (length buffer) 28 then none else some (record { buffer = buffer })

pub field_u16 : ArpPacket → ℕ → Outcome ℕ
field_u16 p at = do
  hi ← index p.buffer at
  lo ← index p.buffer (at + 1)
  returned (from_be_u16 hi lo)

pub hardware_type : ArpPacket → Outcome ℕ
unfolding field_u16
hardware_type p = field_u16 p 0

pub protocol_type : ArpPacket → Outcome ℕ
unfolding field_u16
protocol_type p = field_u16 p 2

unfoldable hardware_address_length : ArpPacket → Outcome ℕ
hardware_address_length p = index p.buffer 4

unfoldable protocol_address_length : ArpPacket → Outcome ℕ
protocol_address_length p = index p.buffer 5

pub operation_raw : ArpPacket → Outcome ℕ
unfolding field_u16
operation_raw p = field_u16 p 6

pub operation : ArpPacket → Outcome ArpOperation
unfolding operation_raw operation_of
operation p = do raw ← operation_raw p; returned (operation_of raw)

unfoldable pub sender_hardware_address : ArpPacket → Outcome (List ℕ)
sender_hardware_address p = range p.buffer 8 14

unfoldable pub sender_protocol_address : ArpPacket → Outcome (List ℕ)
sender_protocol_address p = range p.buffer 14 18

unfoldable pub target_hardware_address : ArpPacket → Outcome (List ℕ)
target_hardware_address p = range p.buffer 18 24

pub target_protocol_address : ArpPacket → Outcome (List ℕ)
target_protocol_address p = range p.buffer 24 28

pub record ArpStateMachine : Type 0 where
  pub our_ip : List ℕ
  pub our_mac : List ℕ

-- The reply, field after field as the source fills it, each a copy into an array of 28 bytes.
pub reply_to : ArpStateMachine → List ℕ → List ℕ → List ℕ
reply_to m mac ip =
    let start : List ℕ = replicate 28 0 in
    let r = splice start 0 (0 ∷ 1 ∷ []) in
    let r = splice r 2 (8 ∷ 0 ∷ []) in
    let r = splice r 4 (6 ∷ []) in
    let r = splice r 5 (4 ∷ []) in
    let r = splice r 6 (0 ∷ 2 ∷ []) in
    let r = splice r 8 m.our_mac in
    let r = splice r 14 m.our_ip in let r = splice r 18 mac in splice r 24 ip

unfoldable pub process_packet : ArpStateMachine → List ℕ → Outcome (Option (List ℕ × List ℕ))
unfolding hardware_type protocol_type operation target_protocol_address
process_packet m buffer = elim (new buffer) [
  | none ↦ returned none
  | some p ↦ do
    hardware ← hardware_type p
    protocol ← protocol_type p
    op ← operation p
    target ← target_protocol_address p
    (if not (hardware == 1) || not (protocol == 0x0800)
        then returned none
        else if not (is_request op)
        then returned none
        else if text_eq target m.our_ip
        then (do
          mac ← sender_hardware_address p
          ip ← sender_protocol_address p
          returned (some (reply_to m mac ip, mac)))
        else returned none)
]
