-- ===== src/Resonance/Graph/Rounds.antt =====
-- libs/resonance/src/graph.rs, process: what a round does to every node.
use una_os.Prelude.{ℕ, zero, suc, ◌+◌, ◌<◌, ◌≤◌, ◌≡◌, ◌≢◌, refl, sym, ◌∙◌, arith, List}
use una_os.Prelude.{
  Option, some, length, get_elem?, set, length-set, get_or_agrees, ◌==◌, ==→eq, Bool-cases,
}
use mathlib.Core.Path.{subst}
use una_os.Prelude.{get_elem?_in, get_elem?-set_self, get_elem?-set_ne, get_elem?_lt, inl, inr}
use una_os.Prelude.Outcome.{returned, ◌>>=◌}
use una_os.Resonance.Graph.{
  AudioNode, AudioGraph, inputs_slice, process_node, process_from, process,
}
use una_os.Resonance.Graph.{last_or}
use una_os.Resonance.Graph.Inputs.{inputs_slice_agrees}
use una_os.Resonance.Graph.Heard.{Hears, inputs_slice-Hears}

-- One buffer and one row of connections for each node.
pub record IsAligned {N B C : Type 0} (g : AudioGraph N B C) : Type 0 where
  pub outputs : length g.outputs ≡ length g.nodes
  pub connections : length g.connections ≡ length g.nodes

module _ {N B C P : Type 0} (impl : AudioNode N B C P) where
  -- The node `id` has run once: on the buffers that its sources have after the round.
  abbrev pub Ran : AudioGraph N B C → AudioGraph N B C → ℕ → Type 0
  Ran g g' id =
      (n : N) (buffer : B) (input_map : List (Option ℕ))
      → get_elem? g.nodes id ≡ some n
      → get_elem? g.outputs id ≡ some buffer
      → get_elem? g.connections id ≡ some input_map
      → (inputs : List B) × Hears g'.outputs g.silence id input_map inputs
        × (let after = impl.process n inputs buffer g.context in
            (get_elem? g'.nodes id ≡ some after.0) × (get_elem? g'.outputs id ≡ some after.1))

  -- The graph after the nodes from `id` on have run.
  pub record Rounds (id : ℕ) (g g' : AudioGraph N B C) : Type 0 where
    pub aligned : IsAligned g'
    pub count : length g'.nodes ≡ length g.nodes
    pub wires : g'.connections ≡ g.connections
    pub quiet : g'.silence ≡ g.silence
    pub early_nodes : (j : ℕ) → j < id → get_elem? g'.nodes j ≡ get_elem? g.nodes j
    pub early_outputs : (j : ℕ) → j < id → get_elem? g'.outputs j ≡ get_elem? g.outputs j
    pub ran : (j : ℕ) → id ≤ j → Ran g g' j

  -- The graph after the node `id` has run.
  abbrev stepped : AudioGraph N B C → ℕ → N → B → AudioGraph N B C
  stepped g id n b = record g { nodes = set g.nodes id n; outputs = set g.outputs id b }

  stepped-IsAligned :
      (g : AudioGraph N B C) (id : ℕ) (n : N) (b : B) → IsAligned g → IsAligned (stepped g id n b)
  stepped-IsAligned g id n b a = record {
    outputs = length-set g.outputs id b ∙ a.outputs ∙ sym (length-set g.nodes id n);
    connections = a.connections ∙ sym (length-set g.nodes id n);
  }

  -- The node `id` runs, and then the nodes behind it.
  module _ (id : ℕ) (g g' : AudioGraph N B C) (a : IsAligned g) (n n' : N) (b b' : B)
      (w : List (Option ℕ)) (hn : get_elem? g.nodes id ≡ some n)
      (hb : get_elem? g.outputs id ≡ some b) (hw : get_elem? g.connections id ≡ some w)
      (now : impl.process n (inputs_slice g.outputs g.silence id w) b g.context ≡ (n', b'))
      (rest : Rounds (id + 1) (stepped g id n' b') g') where
    early_output : (j : ℕ) → j < id → get_elem? g'.outputs j ≡ get_elem? g.outputs j
    early_output j h =
        rest.early_outputs j (omega arith)
        ∙ get_elem?-set_ne g.outputs id j b' (λ e. absurd (omega arith))

    same_inputs : inputs_slice g'.outputs g.silence id w ≡ inputs_slice g.outputs g.silence id w
    same_inputs =
        inputs_slice_agrees g'.outputs g.outputs g.silence id w
          (λ s h. get_or_agrees g'.outputs g.outputs s g.silence (early_output s h))

    Ran-now : Ran g g' id
    Ran-now m c v hm hc hv =
        let e : m ≡ n = cc in
        let f : c ≡ b = cc in
        let k : v ≡ w = cc in
        let outputs_here : get_elem? g'.outputs id ≡ some b' =
          rest.early_outputs id (omega arith)
          ∙ get_elem?-set_self g.outputs id b' (get_elem?_lt g.outputs id b hb) in
        let nodes_here : get_elem? g'.nodes id ≡ some n' =
          rest.early_nodes id (omega arith)
          ∙ get_elem?-set_self g.nodes id n' (get_elem?_lt g.nodes id n hn) in
        (
          inputs_slice g'.outputs g.silence id v,
          inputs_slice-Hears g'.outputs g.silence id v,
          rw (e, f, k, same_inputs, now) (nodes_here, outputs_here),
        )

    Ran-later : (j : ℕ) → id < j → Ran g g' j
    Ran-later j h m c v hm hc hv =
        let other : id ≢ j = λ e. absurd (omega arith) in
        rest.ran j (omega arith) m c v (get_elem?-set_ne g.nodes id j n' other ∙ hm)
          (get_elem?-set_ne g.outputs id j b' other ∙ hc) hv

    Ran-from : (j : ℕ) → id ≤ j → Ran g g' j
    Ran-from j h = elim (Bool-cases (id == j)) [
      | inl here ↦ subst (Ran g g') (==→eq id j here) Ran-now
      | inr later ↦ Ran-later j (ground arith)
    ]

    Rounds-from : Rounds id g g'
    Rounds-from = record {
      aligned = rest.aligned;
      count = rest.count ∙ length-set g.nodes id n';
      wires = rest.wires;
      quiet = rest.quiet;
      early_nodes = λ j h.
          rest.early_nodes j (omega arith)
          ∙ get_elem?-set_ne g.nodes id j n' (λ e. absurd (omega arith));
      early_outputs = early_output;
      ran = Ran-from;
    }

  process_from-Rounds :
      (left id : ℕ) (g : AudioGraph N B C)
      → IsAligned g
      → id + left ≡ length g.nodes
      → (g' : AudioGraph N B C) × (process_from impl id left g ≡ returned g') × Rounds id g g'
  unfolding process_from process_node
  process_from-Rounds zero id g a e = (
    g,
    refl,
    record {
      aligned = a;
      count = refl;
      wires = refl;
      quiet = refl;
      early_nodes = λ j h. refl;
      early_outputs = λ j h. refl;
      ran = λ j h n b w hn hb hw. absurd (omega (arith, get_elem?_lt g.nodes j n hn));
    },
  )
  process_from-Rounds (suc left) id g a e =
      let (n, hn) = get_elem?_in g.nodes id (omega arith) in
      let (b, hb) = get_elem?_in g.outputs id (omega (arith, a.outputs)) in
      let (w, hw) = get_elem?_in g.connections id (omega (arith, a.connections)) in
      let after = impl.process n (inputs_slice g.outputs g.silence id w) b g.context in
      let (g', returns, rest) =
        process_from-Rounds left (id + 1) (stepped g id after.0 after.1)
          (stepped-IsAligned g id after.0 after.1 a)
          (omega (arith, length-set g.nodes id after.0)) in
      (
        g',
        rw (hb, hw, hn, process_node, ◌>>=◌) returns,
        Rounds-from id g g' a n after.0 b after.1 w hn hb hw refl rest,
      )

  -- On a graph with a buffer and a row of connections for each node, a round does not panic. It keeps
  -- the connections and the number of nodes, and every node has run exactly once, on its old buffer and
  -- on what it hears: for each of its first eight ports, up to the last that is connected to an earlier
  -- node, the new buffer of that node, or silence where the port is connected to none or a later one.
  -- The buffer of the last node is returned.
  pub process-Rounds :
      (g : AudioGraph N B C)
      → IsAligned g
      → (g' : AudioGraph N B C) × (process impl g ≡ returned (g', last_or g'.outputs g.silence))
        × Rounds 0 g g'
  unfolding process
  process-Rounds g a =
      let (g', returns, rounds) = process_from-Rounds (length g.nodes) 0 g a (omega arith) in
      (g', rw (returns, rounds.quiet), rounds)
