-- ===== src/Resonance/Graph/Heard.antt =====
-- libs/resonance/src/graph.rs: what a node hears at its ports, and that the slice of buffers is that.
use una_os.Prelude.{
  ℕ, zero, suc, ◌+◌, ◌-◌, ◌<◌, ◌≤◌, ◌≡◌, refl, ◌∙◌, arith, inl, inr, List, [], ◌∷◌,
}
use una_os.Prelude.{true, false, Option, none, some, ltb, if◌then◌else◌, Bool-cases, length}
use una_os.Prelude.{get_or, set, take, replicate, ◌==◌, sym}
use una_os.Prelude.{get_or-set_ne, get_or-set_self, get_or-replicate, length-set, length-take}
use una_os.Resonance.Graph.{wire, inputs_slice}

-- One more than the highest port that is connected to an earlier node, 0 if there is none.
abbrev pub reach : ℕ → List (Option ℕ) → ℕ
reach id [] = 0
reach id (none ∷ sources) = if ltb 0 (reach id sources) then suc (reach id sources) else 0
reach id (some src ∷ sources) =
    if ltb 0 (reach id sources) then suc (reach id sources) else if ltb src id then 1 else 0

whole_or_none : (n : ℕ) → (if ltb 0 n then 0 + n else 0) ≡ n
whole_or_none n = ground arith

module _ {B : Type 0} where
  -- What a port receives: the output of its source if that is an earlier node, silence if not.
  pub heard : List B → B → ℕ → Option ℕ → B
  heard outputs silence id none = silence
  heard outputs silence id (some src) = if ltb src id then get_or outputs src silence else silence

  -- The buffers that a node is to read: of its first eight connections each port's, up to the last
  -- that is connected to an earlier node.
  pub record Hears (outputs : List B) (silence : B) (id : ℕ) (input_map : List (Option ℕ))
      (inputs : List B) : Type 0 where
    pub count : length inputs ≡ reach id (take 8 input_map)
    pub ports :
        (p : ℕ)
        → get_or inputs p silence ≡ heard outputs silence id (get_or (take 8 input_map) p none)

  module _ (outputs : List B) (silence : B) (id : ℕ) where
    -- One port more, whose buffer is what it receives.
    port_heard :
        (port p : ℕ) (first : Option ℕ) (sources : List (Option ℕ)) (refs refs' : List B)
        → get_or refs' p silence
          ≡ (if p == port then heard outputs silence id first else get_or refs p silence)
        → (if ltb p (port + 1)
            then get_or refs' p silence
            else heard outputs silence id (get_or sources (p - (port + 1)) none))
          ≡ (if ltb p port
              then get_or refs p silence
              else heard outputs silence id (get_or (first ∷ sources) (p - port) none))
    port_heard port p first sources refs refs' h = elim (Bool-cases (ltb p port)) [
      | inl before ↦
          let e : ltb p (port + 1) ≡ true = ground arith in
          let f : (p == port) ≡ false = ground arith in rw (before, e) (h ∙ rw f)
      | inr later ↦ elim (Bool-cases (p == port)) [
        | inl here ↦
            let e : ltb p (port + 1) ≡ true = ground arith in
            let f : p - port ≡ 0 = ground arith in rw (later, e, f) (h ∙ rw here)
        | inr past ↦
            let e : ltb p (port + 1) ≡ false = ground arith in
            let f : p - port ≡ suc (p - (port + 1)) = ground arith in rw (later, e, f)
      ]
    ]

    placed :
        (refs : List B) (port p : ℕ) (v w : B)
        → w ≡ v
        → port < length refs
        → get_or (set refs port v) p silence ≡ (if p == port then w else get_or refs p silence)
    placed refs port p v w e h = elim (Bool-cases (p == port)) [
      | inl here ↦
          let f : p ≡ port = ground arith in
          rw (here, f) (get_or-set_self refs port v silence h ∙ sym e)
      | inr other ↦ rw other (get_or-set_ne refs port p v silence (λ f. absurd (ground arith)))
    ]

    unplaced :
        (refs : List B) (port p : ℕ) (w : B)
        → w ≡ silence
        → (port ≤ p → get_or refs p silence ≡ silence)
        → get_or refs p silence ≡ (if p == port then w else get_or refs p silence)
    unplaced refs port p w e h = elim (Bool-cases (p == port)) [
      | inl here ↦ rw here (h (ground arith) ∙ sym e)
      | inr other ↦ rw other
    ]

    wire-heard :
        (port : ℕ) (sources : List (Option ℕ)) (refs : List B) (used p : ℕ)
        → ((q : ℕ) → port ≤ q → get_or refs q silence ≡ silence)
        → port + length sources ≤ length refs
        → get_or (wire outputs silence id port sources refs used).0 p silence ≡ (
            if ltb p port
            then get_or refs p silence
            else heard outputs silence id (get_or sources (p - port) none))
    unfolding wire heard
    wire-heard port [] refs used p quiet fits = ground (arith, quiet p)
    wire-heard port (none ∷ sources) refs used p quiet fits =
        wire-heard (port + 1) sources refs used p (λ q h. quiet q (omega arith)) (omega arith)
        ∙ port_heard port p none sources refs refs (ground (arith, quiet p))
    wire-heard port (some src ∷ sources) refs used p quiet fits = elim (Bool-cases (ltb src id)) [
      | inl early ↦
          let v = get_or outputs src silence in
          let used' = if ltb used (port + 1) then port + 1 else used in
          rw early (
            wire-heard (port + 1) sources (set refs port v) used' p
              (λ q h.
                get_or-set_ne refs port q v silence (λ e. absurd (omega arith))
                ∙ quiet q (omega arith))
              (omega (arith, length-set refs port v))
            ∙ port_heard port p (some src) sources refs (set refs port v) (
                placed refs port p v (heard outputs silence id (some src)) (rw early)
                  (omega arith)))
      | inr late ↦ rw late (
          wire-heard (port + 1) sources refs used p (λ q h. quiet q (omega arith)) (omega arith)
          ∙ port_heard port p (some src) sources refs refs
              (unplaced refs port p (heard outputs silence id (some src)) (rw late) (quiet p)))
    ]

    wire_quiet :
        (port : ℕ) (sources : List (Option ℕ)) (refs : List B) (used p : ℕ)
        → ((q : ℕ) → used ≤ q → get_or refs q silence ≡ silence)
        → (wire outputs silence id port sources refs used).1 ≤ p
        → get_or (wire outputs silence id port sources refs used).0 p silence ≡ silence
    unfolding wire
    wire_quiet port [] refs used p quiet h = quiet p h
    wire_quiet port (none ∷ sources) refs used p quiet h =
        wire_quiet (port + 1) sources refs used p quiet h
    wire_quiet port (some src ∷ sources) refs used p quiet h = elim (Bool-cases (ltb src id)) [
      | inl early ↦
          let used' = if ltb used (port + 1) then port + 1 else used in
          rw early (
            wire_quiet (port + 1) sources (set refs port (get_or outputs src silence)) used' p
              (λ q k.
                get_or-set_ne refs port q (get_or outputs src silence) silence
                  (λ e. absurd (ground arith))
                ∙ quiet q (ground arith))
              (rw early at h))
      | inr late ↦ rw late (wire_quiet (port + 1) sources refs used p quiet (rw late at h))
    ]

    get_or-take_quiet :
        (n p : ℕ) (xs : List B)
        → (n ≤ p → get_or xs p silence ≡ silence)
        → get_or (take n xs) p silence ≡ get_or xs p silence
    get_or-take_quiet zero p xs h = sym (h (omega arith))
    get_or-take_quiet (suc n) p [] h = refl
    get_or-take_quiet (suc n) zero (x ∷ xs) h = refl
    get_or-take_quiet (suc n) (suc p) (x ∷ xs) h = get_or-take_quiet n p xs (λ k. h (omega arith))

    -- The slice that a node is given holds, at every port, what the port receives; past its end there is
    -- only silence. Of the connections the first eight count.
    pub inputs_slice-heard :
        (input_map : List (Option ℕ)) (p : ℕ)
        → get_or (inputs_slice outputs silence id input_map) p silence
          ≡ heard outputs silence id (get_or (take 8 input_map) p none)
    unfolding inputs_slice
    inputs_slice-heard input_map p =
        let refs = replicate 8 silence in
        let sources = take 8 input_map in
        let e : p - 0 ≡ p = omega arith in
        let f : ltb p 0 ≡ false = ground arith in
        get_or-take_quiet (wire outputs silence id 0 sources refs 0).1 p
          (wire outputs silence id 0 sources refs 0).0
          (wire_quiet 0 sources refs 0 p (λ q h. get_or-replicate 8 q silence))
        ∙ wire-heard 0 sources refs 0 p (λ q h. get_or-replicate 8 q silence)
            (omega (arith, length-take 8 input_map))
        ∙ rw (e, f)

    length-wire :
        (port : ℕ) (sources : List (Option ℕ)) (refs : List B) (used : ℕ)
        → length (wire outputs silence id port sources refs used).0 ≡ length refs
    unfolding wire
    length-wire port [] refs used = refl
    length-wire port (none ∷ sources) refs used = length-wire (port + 1) sources refs used
    length-wire port (some src ∷ sources) refs used = elim (Bool-cases (ltb src id)) [
      | inl early ↦
          let v = get_or outputs src silence in
          let used' = if ltb used (port + 1) then port + 1 else used in
          rw early (length-wire (port + 1) sources (set refs port v) used' ∙ length-set refs port v)
      | inr late ↦ rw late (length-wire (port + 1) sources refs used)
    ]

    wire-reach :
        (port : ℕ) (sources : List (Option ℕ)) (refs : List B) (used : ℕ)
        → used ≤ port
        → (wire outputs silence id port sources refs used).1
          ≡ (if ltb 0 (reach id sources) then port + reach id sources else used)
    unfolding wire
    wire-reach port [] refs used h = refl
    wire-reach port (none ∷ sources) refs used h =
        wire-reach (port + 1) sources refs used (omega arith) ∙ ground arith
    wire-reach port (some src ∷ sources) refs used h = elim (Bool-cases (ltb src id)) [
      | inl early ↦
          let v = get_or outputs src silence in
          let next : (if ltb used (port + 1) then port + 1 else used) ≡ port + 1 = ground arith in
          rw (early, next)
            (wire-reach (port + 1) sources (set refs port v) (port + 1) (omega arith)
              ∙ ground arith)
      | inr late ↦ rw late (wire-reach (port + 1) sources refs used (omega arith) ∙ ground arith)
    ]

    reach-le-length : (sources : List (Option ℕ)) → reach id sources ≤ length sources
    reach-le-length [] = omega arith
    reach-le-length (none ∷ sources) = ground (arith, reach-le-length sources)
    reach-le-length (some src ∷ sources) = ground (arith, reach-le-length sources)

    -- The slice of the buffers is what the node hears.
    pub inputs_slice-Hears :
        (input_map : List (Option ℕ))
        → Hears outputs silence id input_map (inputs_slice outputs silence id input_map)
    unfolding inputs_slice
    inputs_slice-Hears input_map =
        let refs = replicate 8 silence in
        let sources = take 8 input_map in
        let some_port : (if ltb 0 (reach id sources) then 0 + reach id sources else 0)
            ≡ reach id sources =
          whole_or_none (reach id sources) in
        let whole : (wire outputs silence id 0 sources refs 0).1 ≡ reach id sources =
          wire-reach 0 sources refs 0 (omega arith) ∙ some_port in
        let eight : length refs ≡ 8 = refl in
        record {
          count = omega (
            arith,
            length-take (wire outputs silence id 0 sources refs 0).1
                (wire outputs silence id 0 sources refs 0).0,
            length-wire 0 sources refs 0,
            eight,
            whole,
            reach-le-length sources,
            length-take 8 input_map,
          );
          ports = inputs_slice-heard input_map;
        }
