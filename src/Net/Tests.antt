-- ===== src/Net/Tests.antt =====
-- The theorems about unaos/crates/net on concrete packets.
use una_os.Prelude.{ℕ, ◌*◌, ◌%◌, ◌≡◌, refl, arith, List, [], ◌∷◌, none, some, Bool, true}
use una_os.Prelude.{◌&&◌, ltb, ◌==◌, if◌then◌else◌, get_or, slice, take, All, IsByte}
use una_os.Prelude.Text.{text_eq}
use una_os.Prelude.Outcome.{returned, index}
use una_os.Net.Arp.{ArpStateMachine, process_packet}
use una_os.Net.Arp.Reply.{IsMachine, asks_for, laid_out, process_packet-answers}
use una_os.Net.Ipv4.{Ipv4Header, new, verify_checksum}
use una_os.Net.Ipv4.Checksum.{word_total, verify_checksum-total}
use una_os.Net.Ingress.{ingress, ingress_returns}

abbrev machine : ArpStateMachine
machine = record { our_ip = 10 ∷ 0 ∷ 0 ∷ 2 ∷ []; our_mac = 2 ∷ 0 ∷ 0 ∷ 0 ∷ 0 ∷ 7 ∷ [] }

machine-IsMachine : IsMachine machine
unfolding IsMachine
machine-IsMachine = (refl, refl)

-- 10.0.0.1 asks who has 10.0.0.2.
abbrev question : List ℕ
question =
    0 ∷ 1 ∷ 8 ∷ 0 ∷ 6 ∷ 4 ∷ 0 ∷ 1 ∷ 82 ∷ 84 ∷ 0 ∷ 18 ∷ 52 ∷ 86 ∷ 10 ∷ 0 ∷ 0 ∷ 1 ∷ 0 ∷ 0 ∷ 0 ∷ 0 ∷ 0
    ∷ 0 ∷ 10 ∷ 0 ∷ 0 ∷ 2 ∷ []

process_packet-answers_example :
    process_packet machine question
    ≡ returned (
        if asks_for machine question
        then some (laid_out machine (slice question 8 6) (slice question 14 4), slice question 8 6)
        else none)
process_packet-answers_example = process_packet-answers machine question machine-IsMachine

abbrev answer : List ℕ
answer =
    0 ∷ 1 ∷ 8 ∷ 0 ∷ 6 ∷ 4 ∷ 0 ∷ 2 ∷ 2 ∷ 0 ∷ 0 ∷ 0 ∷ 0 ∷ 7 ∷ 10 ∷ 0 ∷ 0 ∷ 2 ∷ 82 ∷ 84 ∷ 0 ∷ 18 ∷ 52
    ∷ 86 ∷ 10 ∷ 0 ∷ 0 ∷ 1 ∷ []

answered :
    process_packet machine question ≡ returned (some (answer, 82 ∷ 84 ∷ 0 ∷ 18 ∷ 52 ∷ 86 ∷ []))
unfolding asks_for laid_out slice text_eq
answered = process_packet-answers machine question machine-IsMachine

-- The header of a UDP packet with its checksum, b861, and two bytes behind it.
abbrev packet : List ℕ
packet =
    69 ∷ 0 ∷ 0 ∷ 115 ∷ 0 ∷ 0 ∷ 64 ∷ 0 ∷ 64 ∷ 17 ∷ 184 ∷ 97 ∷ 192 ∷ 168 ∷ 0 ∷ 1 ∷ 192 ∷ 168 ∷ 0 ∷ 199
    ∷ 1 ∷ 2 ∷ []

abbrev packet_header : Ipv4Header
packet_header = record { buffer = packet }

packet-parsed : new packet ≡ returned (some packet_header)
unfolding new index
packet-parsed = refl

all_bytes : List ℕ → Bool
all_bytes [] = true
all_bytes (x ∷ xs) = ltb x 256 && all_bytes xs

bytes_of : (xs : List ℕ) → all_bytes xs ≡ true → All IsByte xs
unfolding all_bytes
bytes_of [] h = tt
bytes_of (x ∷ xs) h = (ground arith, bytes_of xs (ground arith))

packet-bytes : All IsByte packet
unfolding all_bytes
packet-bytes = bytes_of packet refl

verify_checksum-total_example :
    verify_checksum packet_header
    ≡ returned (
        ltb 0 (word_total (take ((get_or packet 0 0 % 16) * 4) packet))
        && (word_total (take ((get_or packet 0 0 % 16) * 4) packet) % 65535 == 0))
verify_checksum-total_example =
    verify_checksum-total packet packet_header (packet-bytes) packet-parsed

-- An IPv4 frame that is cut off within the header of its packet.
abbrev framed : List ℕ
framed =
    2 ∷ 0 ∷ 0 ∷ 0 ∷ 0 ∷ 7 ∷ 82 ∷ 84 ∷ 0 ∷ 18 ∷ 52 ∷ 86 ∷ 8 ∷ 0 ∷ 79 ∷ 0 ∷ 0 ∷ 115 ∷ 0 ∷ 0 ∷ 64 ∷ 0
    ∷ []

ingress_returns_example : ingress machine framed ≡ returned tt
ingress_returns_example = ingress_returns machine framed machine-IsMachine
