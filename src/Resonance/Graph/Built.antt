-- ===== src/Resonance/Graph/Built.antt =====
-- libs/resonance/src/graph.rs: graphs that the operations build, and that a round never panics on them.
use una_os.Prelude.{ℕ, ◌+◌, ◌≡◌, refl, sym, ◌∙◌, arith, [], ◌∷◌, some}
use una_os.Prelude.{leb, ◌||◌, Bool-cases, Option-cases, inl, inr, length, get_elem?}
use una_os.Prelude.{set, length-set, length-append}
use mathlib.Core.Path.{subst}
use una_os.Prelude.Outcome.{returned}
use una_os.Resonance.Graph.{AudioNode, AudioGraph, new, add_node, grow, connect, set_node_param}
use una_os.Resonance.Graph.{process, last_or}
use una_os.Resonance.Graph.Rounds.{IsAligned, Rounds, process-Rounds}

module _ {N B C P : Type 0} (impl : AudioNode N B C P) where
  -- Any sequence of the operations, rounds included.
  pub data Built : AudioGraph N B C → Type 0 where
    fresh : (silence : B) (context : C) → Built (new silence context)
    added : {g : AudioGraph N B C} (node : N) → Built g → Built (add_node node g).1
    connected :
        {g g' : AudioGraph N B C} (src dst port : ℕ)
        → Built g
        → connect src dst port g ≡ returned g'
        → Built g'
    tuned :
        {g : AudioGraph N B C} (id param_id : ℕ) (value : P)
        → Built g
        → Built (set_node_param impl id param_id value g)
    played :
        {g g' : AudioGraph N B C} (buffer : B)
        → Built g
        → process impl g ≡ returned (g', buffer)
        → Built g'

  connected-IsAligned :
      (g g' : AudioGraph N B C) (src dst port : ℕ)
      → IsAligned g
      → connect src dst port g ≡ returned g'
      → IsAligned g'
  unfolding connect
  connected-IsAligned g g' src dst port a e = elim (Bool-cases (leb 8 port)) [
    | inl beyond ↦ absurd (cc (rw beyond at e))
    | inr known ↦ elim (Bool-cases (leb (length g.nodes) src || leb (length g.nodes) dst)) [
      | inl unknown ↦ absurd (cc (rw unknown at (rw known at e)))
      | inr nodes ↦ elim (Option-cases (get_elem? g.connections dst)) [
        | inl out ↦ absurd (cc (rw out at (rw nodes at (rw known at e))))
        | inr (inputs, row) ↦
            let wires = set g.connections dst (set (grow inputs (port + 1)) port (some src)) in
            let f : returned (record g { connections = wires }) ≡ returned g' =
              rw row at (rw nodes at (rw known at e)) in
            let same : record g { connections = wires } ≡ g' = cc f in
            subst IsAligned same (record {
              outputs = a.outputs;
              connections =
                  length-set g.connections dst (set (grow inputs (port + 1)) port (some src))
                  ∙ a.connections;
            })
      ]
    ]
  ]

  tuned-IsAligned :
      (g : AudioGraph N B C) (id param_id : ℕ) (value : P)
      → IsAligned g
      → IsAligned (set_node_param impl id param_id value g)
  unfolding set_node_param
  tuned-IsAligned g id param_id value a = elim (Option-cases (get_elem? g.nodes id)) [
    | inl out ↦ rw (out, set_node_param) a
    | inr (n, e) ↦
        let size = length-set g.nodes id (impl.set_param n param_id value) in
        rw (e, set_node_param)
          (record { outputs = a.outputs ∙ sym size; connections = a.connections ∙ sym size })
  ]

  Built-IsAligned : {g : AudioGraph N B C} → Built g → IsAligned g
  unfolding new add_node
  Built-IsAligned (fresh silence context) = record { outputs = refl; connections = refl }
  Built-IsAligned (added {g} node b) =
      let a = Built-IsAligned b in
      record {
        outputs = omega (
          arith,
          a.outputs,
          length-append g.outputs (g.silence ∷ []),
          length-append g.nodes (node ∷ []),
        );
        connections = omega (
          arith,
          a.connections,
          length-append g.connections ([] ∷ []),
          length-append g.nodes (node ∷ []),
        );
      }
  Built-IsAligned (connected {g} {g'} src dst port b e) =
      connected-IsAligned g g' src dst port (Built-IsAligned b) e
  Built-IsAligned (tuned {g} id param_id value b) =
      tuned-IsAligned g id param_id value (Built-IsAligned b)
  Built-IsAligned (played {g} {g'} buffer b e) =
      let (g'', returns, rounds) = process-Rounds impl g (Built-IsAligned b) in
      let f : returned (g'', last_or g''.outputs g.silence) ≡ returned (g', buffer) =
        sym returns ∙ e in
      let same : g'' ≡ g' = cc f in subst IsAligned same rounds.aligned

  -- A round on any graph that the operations have built returns, and runs every node once.
  pub process-Built :
      (g : AudioGraph N B C)
      → Built g
      → (g' : AudioGraph N B C) × (process impl g ≡ returned (g', last_or g'.outputs g.silence))
        × Rounds impl 0 g g'
  process-Built g b = process-Rounds impl g (Built-IsAligned b)
