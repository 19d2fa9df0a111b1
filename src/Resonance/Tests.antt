-- ===== src/Resonance/Tests.antt =====
-- libs/resonance/src/graph.rs: a graph of three nodes, and the theorems applied to it.
use una_os.Prelude.{ℕ, suc, ◌+◌, ◌≡◌, refl, arith, List, [], ◌∷◌, none, some, ◌&&◌}
use una_os.Prelude.{◌==◌, if◌then◌else◌}
use una_os.Prelude.Outcome.{panicked, returned}
use una_os.Resonance.Graph.{AudioNode, AudioGraph, new, add_node, connect, process, last_or}
use una_os.Resonance.Graph.{inputs_slice}
use una_os.Resonance.Graph.Rounds.{Rounds, IsAligned}
use una_os.Resonance.Graph.Connect.{source, connect-source}
use una_os.Resonance.Graph.Built.{Built, fresh, added, connected, process-Built}

abbrev sum : List ℕ → ℕ
sum [] = 0
sum (x ∷ xs) = x + sum xs

-- A node adds its own number to the inputs, and counts its rounds.
abbrev adder : AudioNode ℕ ℕ ℕ ℕ
adder = record { process = λ n inputs buffer c. (suc n, sum inputs + n); set_param = λ n k v. v }

abbrev empty : AudioGraph ℕ ℕ ℕ
empty = new 0 48000

abbrev nodes : AudioGraph ℕ ℕ ℕ
nodes = (add_node 5 (add_node 3 (add_node 1 empty).1).1).1

-- Node 2 hears node 0 at its second port and, in vain, itself at its third.
abbrev graph : AudioGraph ℕ ℕ ℕ
graph = record {
  nodes = 1 ∷ 3 ∷ 5 ∷ [];
  connections = [] ∷ (some 0 ∷ []) ∷ (none ∷ some 0 ∷ some 2 ∷ []) ∷ [];
  outputs = 0 ∷ 0 ∷ 0 ∷ [];
  silence = 0;
  context = 48000;
}

abbrev wired_once : AudioGraph ℕ ℕ ℕ
wired_once = record graph { connections = [] ∷ (some 0 ∷ []) ∷ [] ∷ [] }

abbrev wired_twice : AudioGraph ℕ ℕ ℕ
wired_twice = record graph { connections = [] ∷ (some 0 ∷ []) ∷ (none ∷ some 0 ∷ []) ∷ [] }

first_wire : connect 0 1 0 nodes ≡ returned wired_once
unfolding new add_node connect
first_wire = refl

second_wire : connect 0 2 1 wired_once ≡ returned wired_twice
unfolding connect
second_wire = refl

third_wire : connect 2 2 2 wired_twice ≡ returned graph
unfolding connect
third_wire = refl

graph_Built : Built adder graph
graph_Built =
    connected 2 2 2
      (connected 0 2 1 (connected 0 1 0 (added 5 (added 3 (added 1 (fresh 0 48000)))) first_wire)
        second_wire)
      third_wire

played :
    process adder graph
    ≡ returned (record graph { nodes = 2 ∷ 4 ∷ 6 ∷ []; outputs = 1 ∷ 4 ∷ 6 ∷ [] }, 6)
unfolding process
played = refl

unknown_node : connect 0 7 0 graph ≡ panicked
unfolding connect
unknown_node = refl

graph-IsAligned : IsAligned graph
graph-IsAligned = record { outputs = refl; connections = refl }

process-Built_example :
    (g' : AudioGraph ℕ ℕ ℕ) × (process adder graph ≡ returned (g', last_or g'.outputs 0))
    × Rounds adder 0 graph g'
process-Built_example = process-Built adder graph graph_Built

connect-source_example :
    (g' : AudioGraph ℕ ℕ ℕ) × (connect 1 2 0 graph ≡ returned g')
    × IsAligned g'
    × (g'.nodes ≡ graph.nodes)
    × (g'.outputs ≡ graph.outputs)
    × ((d p : ℕ) → source g' d p ≡ (if d == 2 && p == 0 then some 1 else source graph d p))
connect-source_example =
    connect-source graph graph-IsAligned 1 2 0 (omega arith) (omega arith) (omega arith)

slice_of_node_two :
    inputs_slice {B = ℕ} (1 ∷ 4 ∷ 0 ∷ []) 0 2 (none ∷ some 0 ∷ some 2 ∷ []) ≡ 0 ∷ 1 ∷ []
unfolding inputs_slice
slice_of_node_two = refl
