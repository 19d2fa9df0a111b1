-- ===== src/Resonance/Graph/Inputs.antt =====
-- libs/resonance/src/graph.rs: which buffers a node reads.
use una_os.Prelude.{ℕ, ◌+◌, ◌<◌, ◌≡◌, refl, inl, inr, List, [], ◌∷◌}
use una_os.Prelude.{Option, none, some, ltb, if◌then◌else◌, Bool-cases, ltb→lt}
use una_os.Prelude.{get_or, set, take, replicate}
use una_os.Resonance.Graph.{wire, inputs_slice}

module _ {B : Type 0} where
  wire_agrees :
      (outputs outputs' : List B) (silence : B) (id port : ℕ) (sources : List (Option ℕ))
      (refs : List B) (used : ℕ)
      → ((s : ℕ) → s < id → get_or outputs s silence ≡ get_or outputs' s silence)
      → wire outputs silence id port sources refs used
        ≡ wire outputs' silence id port sources refs used
  unfolding wire
  wire_agrees outputs outputs' silence id port [] refs used h = refl
  wire_agrees outputs outputs' silence id port (none ∷ sources) refs used h =
      wire_agrees outputs outputs' silence id (port + 1) sources refs used h
  wire_agrees outputs outputs' silence id port (some src ∷ sources) refs used h =
      elim (Bool-cases (ltb src id)) [
        | inl early ↦
            rw (early, h src (ltb→lt src id early))
              (wire_agrees outputs outputs' silence id (port + 1) sources
                (set refs port (get_or outputs' src silence))
                (if ltb used (port + 1) then port + 1 else used) h)
        | inr late ↦
            rw late (wire_agrees outputs outputs' silence id (port + 1) sources refs used h)
      ]

  -- A node reads the outputs of earlier nodes only.
  pub inputs_slice_agrees :
      (outputs outputs' : List B) (silence : B) (id : ℕ) (input_map : List (Option ℕ))
      → ((s : ℕ) → s < id → get_or outputs s silence ≡ get_or outputs' s silence)
      → inputs_slice outputs silence id input_map ≡ inputs_slice outputs' silence id input_map
  unfolding inputs_slice
  inputs_slice_agrees outputs outputs' silence id input_map h =
      rw (wire_agrees outputs outputs' silence id 0 (take 8 input_map) (replicate 8 silence) 0 h)
