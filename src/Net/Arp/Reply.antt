-- ===== src/Net/Arp/Reply.antt =====
-- unaos/crates/net/src/arp.rs, process_packet: which packets are answered, and with what.
use una_os.Prelude.{ℕ, ◌+◌, ◌≤◌, ◌<◌, ◌≡◌, refl, sym, ◌∙◌, List, [], ◌∷◌, ◌++◌, arith}
use una_os.Prelude.{
  none, some, Bool, true, false, not, ◌||◌, ◌==◌, ltb, Bool-cases, inl, inr, ◌&&◌, if◌then◌else◌,
  ltb→le,
}
use una_os.Prelude.{length, get_or, slice, splice, from_be_u16, length-slice}
use una_os.Prelude.Text.{text_eq}
use una_os.Prelude.Outcome.{returned, index, range, index_in, range_in}
use una_os.Net.Arp.{ArpPacket, ArpStateMachine, reply_to, process_packet, new, is_request}
use una_os.Net.Arp.{
  operation_of, hardware_type, protocol_type, operation, operation_raw, field_u16, reply,
  target_hardware_address,
}
use una_os.Net.Arp.{target_protocol_address, sender_hardware_address, sender_protocol_address}

-- The fixed sizes of `[u8; 4]` and `[u8; 6]`.
unfoldable pub IsMachine : ArpStateMachine → Type 0
IsMachine m = (length m.our_ip ≡ 4) × (length m.our_mac ≡ 6)

four : (xs : List ℕ) → length xs ≡ 4 → (a b c d : ℕ) × (xs ≡ a ∷ b ∷ c ∷ d ∷ [])
four (a ∷ b ∷ c ∷ d ∷ []) e = (a, b, c, d, refl)
four [] e = absurd (omega arith)
four (a ∷ []) e = absurd (omega arith)
four (a ∷ b ∷ []) e = absurd (omega arith)
four (a ∷ b ∷ c ∷ []) e = absurd (omega arith)
four (a ∷ b ∷ c ∷ d ∷ x ∷ xs) e = absurd (omega arith)

-- The reply as RFC 826 lays it out.
unfoldable pub laid_out : ArpStateMachine → List ℕ → List ℕ → List ℕ
laid_out m mac ip = (0 ∷ 1 ∷ 8 ∷ 0 ∷ 6 ∷ 4 ∷ 0 ∷ 2 ∷ []) ++ (m.our_mac ++ (m.our_ip ++ (mac ++ ip)))

six :
    (xs : List ℕ) → length xs ≡ 6 → (a b : ℕ) × (ys : List ℕ) × (xs ≡ a ∷ b ∷ ys) × (length ys ≡ 4)
six [] e = absurd (omega arith)
six (a ∷ []) e = absurd (omega arith)
six (a ∷ b ∷ ys) e = (a, b, ys, refl, omega arith)

reply_to-laid_out :
    (m : ArpStateMachine) (mac ip : List ℕ)
    → IsMachine m
    → length mac ≡ 6
    → length ip ≡ 4
    → reply_to m mac ip ≡ laid_out m mac ip
unfolding IsMachine reply_to laid_out splice
reply_to-laid_out m mac ip h hm hi =
    let (a, b, ys, e, k) = six mac hm in
    let (c, d, f, g, e4) = four ys k in
    let (i0, i1, i2, i3, ei) = four ip hi in
    let (a', b', ys', e', k') = six m.our_mac h.1 in
    let (c', d', f', g', e4') = four ys' k' in
    let (j0, j1, j2, j3, ej) = four m.our_ip h.0 in rw (e, e4, ei, e', e4', ej)

u16_at : List ℕ → ℕ → ℕ
u16_at buffer at = from_be_u16 (get_or buffer at 0) (get_or buffer (at + 1) 0)

-- A request over Ethernet for the IPv4 address of the machine.
unfoldable pub asks_for : ArpStateMachine → List ℕ → Bool
unfolding u16_at
asks_for m buffer =
    not (ltb (length buffer) 28)
    && (u16_at buffer 0 == 1)
    && (u16_at buffer 2 == 0x0800)
    && (u16_at buffer 6 == 1)
    && text_eq (slice buffer 24 4) m.our_ip

request_test : (n : ℕ) → is_request (operation_of n) ≡ (n == 1)
unfolding is_request operation_of
request_test n = ground arith

guards :
    {A : Type 0} (a b c d : Bool) (x : A)
    → (if not a || not b
        then returned none
        else if not c
        then returned none
        else if d
        then returned (some x)
        else returned none)
      ≡ returned (if a && b && c && d then some x else none)
guards true true true true x = refl
guards true true true false x = refl
guards true true false d x = refl
guards true false c d x = refl
guards false b c d x = refl

-- On every buffer the state machine returns, and it answers the requests for its own address and
-- nothing else, with the reply that RFC 826 prescribes.
pub process_packet-answers :
    (m : ArpStateMachine) (buffer : List ℕ)
    → IsMachine m
    → process_packet m buffer
      ≡ returned (
          if asks_for m buffer
          then some (laid_out m (slice buffer 8 6) (slice buffer 14 4), slice buffer 8 6)
          else none)
unfolding process_packet new hardware_type protocol_type operation operation_raw field_u16
    target_protocol_address sender_hardware_address sender_protocol_address asks_for u16_at
process_packet-answers m buffer h = elim (Bool-cases (ltb (length buffer) 28)) [
  | inl e ↦ rw (e, process_packet, new)
  | inr e ↦
      let k = ltb→le (length buffer) 28 e in
      let at = λ (i : ℕ) (lt : i < 28). index_in buffer i (omega arith) in
      rw
        (
          e,
          process_packet,
          new,
          at 0 (omega arith),
          at 1 (omega arith),
          at 2 (omega arith),
          at 3 (omega arith),
          at 6 (omega arith),
          at 7 (omega arith),
          range_in buffer 24 28 (omega arith) (omega arith),
          range_in buffer 8 14 (omega arith) (omega arith),
          range_in buffer 14 18 (omega arith) (omega arith),
          request_test,
          reply_to-laid_out m (slice buffer 8 6) (slice buffer 14 4) h
              (length-slice buffer 8 6 (omega arith)) (length-slice buffer 14 4 (omega arith)),
        )
        (guards _ _ _ (text_eq (slice buffer 24 4) m.our_ip) _)
]

-- A reply that carries the machine's addresses as its sender's and the requester's as its target's,
-- and that no state machine answers.
pub IsReply : ArpStateMachine → ArpStateMachine → List ℕ → List ℕ → List ℕ → Type 0
IsReply m other bytes mac ip =
    let p : ArpPacket = record { buffer = bytes } in
    (operation p ≡ returned reply)
    × (sender_hardware_address p ≡ returned m.our_mac)
    × (sender_protocol_address p ≡ returned m.our_ip)
    × (target_hardware_address p ≡ returned mac)
    × (target_protocol_address p ≡ returned ip)
    × (process_packet other bytes ≡ returned none)

laid_out-fields :
    (m other : ArpStateMachine) (mac ip : List ℕ)
    → IsMachine m
    → length mac ≡ 6
    → length ip ≡ 4
    → IsReply m other (laid_out m mac ip) mac ip
unfolding IsMachine IsReply laid_out operation operation_of operation_raw field_u16
    sender_hardware_address sender_protocol_address target_hardware_address target_protocol_address
    process_packet new hardware_type protocol_type index range slice is_request
laid_out-fields m other mac ip h hm hi =
    let (a, b, ys, e, k) = six mac hm in
    let (c, d, f, g, e4) = four ys k in
    let (i0, i1, i2, i3, ei) = four ip hi in
    let (a', b', ys', e', k') = six m.our_mac h.1 in
    let (c', d', f', g', e4') = four ys' k' in
    let (j0, j1, j2, j3, ej) = four m.our_ip h.0 in
    rw (e, e4, ei, e', e4', ej) (refl, refl, refl, refl, refl, refl)

asks_for-length :
    (m : ArpStateMachine) (buffer : List ℕ) → asks_for m buffer ≡ true → 28 ≤ length buffer
unfolding asks_for
asks_for-length m buffer h = ground arith

-- A reply carries the machine's addresses as its sender's and the requester's as its target's, and
-- no state machine answers it.
pub process_packet-IsReply :
    (m other : ArpStateMachine) (buffer : List ℕ) {bytes mac : List ℕ}
    → IsMachine m
    → process_packet m buffer ≡ returned (some (bytes, mac))
    → IsReply m other bytes mac (slice buffer 14 4)
process_packet-IsReply m other buffer {bytes} {mac} h e = elim (Bool-cases (asks_for m buffer)) [
  | inl a ↦
      let long = asks_for-length m buffer a in
      let same : returned
            (some (laid_out m (slice buffer 8 6) (slice buffer 14 4), slice buffer 8 6))
          ≡ returned (some (bytes, mac)) =
        sym (rw (process_packet-answers m buffer h, a) refl) ∙ e in
      let f : bytes ≡ laid_out m (slice buffer 8 6) (slice buffer 14 4) = cc same in
      let g : mac ≡ slice buffer 8 6 = cc same in
      rw (f, g)
        (laid_out-fields m other (slice buffer 8 6) (slice buffer 14 4) h
          (length-slice buffer 8 6 (omega arith)) (length-slice buffer 14 4 (omega arith)))
  | inr a ↦ absurd (cc (e, process_packet-answers m buffer h, a))
]
