-- ===== src/Resonance/Graph.antt =====
-- libs/resonance/src/graph.rs: the graph engine. The processors are a parameter, a node type with the
-- operations of the trait AudioNode, and so is the content of a buffer of BLOCK_SIZE samples.
pub mod Inputs
pub mod Heard
pub mod Rounds
pub mod Connect
pub mod Built
use una_os.Prelude.{ℕ, zero, suc, ◌+◌, ◌-◌, List, [], ◌∷◌, ◌++◌, Option, none, some, ltb, leb, ◌||◌}
use una_os.Prelude.{if◌then◌else◌, length, get_elem?, get_or, set, take, replicate}
use una_os.Prelude.Outcome.{Outcome, panicked, returned, ◌>>=◌}

-- `process` writes to the buffer of the node, whose old content it may read.
pub record AudioNode (N B C P : Type 0) : Type 0 where
  pub process : N → List B → B → C → N × B
  pub set_param : N → ℕ → P → N

abbrev pub max_inputs : ℕ
max_inputs = 8

pub record AudioGraph (N B C : Type 0) : Type 0 where
  pub nodes : List N
  pub connections : List (List (Option ℕ))
  pub outputs : List B
  pub silence : B
  pub context : C

-- The loop over the ports: the buffers that the node reads, and one more than the highest port that is
-- connected to an earlier node.
pub wire : {B : Type 0} → List B → B → ℕ → ℕ → List (Option ℕ) → List B → ℕ → List B × ℕ
wire outputs silence id port [] refs used = (refs, used)
wire outputs silence id port (none ∷ sources) refs used =
    wire outputs silence id (port + 1) sources refs used
wire outputs silence id port (some src ∷ sources) refs used =
    if ltb src id
    then wire outputs silence id (port + 1) sources (set refs port (get_or outputs src silence))
        (if ltb used (port + 1) then port + 1 else used)
    else wire outputs silence id (port + 1) sources refs used

-- `&input_refs[0..max_input_index]`
unfoldable pub inputs_slice : {B : Type 0} → List B → B → ℕ → List (Option ℕ) → List B
unfolding wire
inputs_slice outputs silence id input_map =
    let (refs, used) =
      wire outputs silence id 0 (take max_inputs input_map) (replicate max_inputs silence) 0 in
    take used refs

-- `inputs.resize(input_index + 1, None)` where it is too short.
pub grow : List (Option ℕ) → ℕ → List (Option ℕ)
grow inputs n =
    if ltb (length inputs) n then inputs ++ replicate (n - length inputs) none else inputs

abbrev pub last_or : {B : Type 0} → List B → B → B
last_or [] d = d
last_or (x ∷ xs) d = last_or xs x

module _ {N B C : Type 0} where
  unfoldable pub new : B → C → AudioGraph N B C
  new silence context = record {
    nodes = [];
    connections = [];
    outputs = [];
    silence = silence;
    context = context;
  }

  unfoldable pub add_node : N → AudioGraph N B C → ℕ × AudioGraph N B C
  add_node node g = (
    length g.nodes,
    record g {
      nodes = g.nodes ++ (node ∷ []);
      outputs = g.outputs ++ (g.silence ∷ []);
      connections = g.connections ++ ([] ∷ []);
    },
  )

  unfoldable pub connect : ℕ → ℕ → ℕ → AudioGraph N B C → Outcome (AudioGraph N B C)
  unfolding grow
  connect src dst input_index g =
      if leb max_inputs input_index
      then panicked
      else if leb (length g.nodes) src || leb (length g.nodes) dst
      then panicked
      else elim (get_elem? g.connections dst) [
        | none ↦ panicked
        | some inputs ↦ returned (record g {
          connections =
              set g.connections dst (set (grow inputs (input_index + 1)) input_index (some src));
        })
      ]

module _ {N B C P : Type 0} where
  pub set_node_param : AudioNode N B C P → ℕ → ℕ → P → AudioGraph N B C → AudioGraph N B C
  set_node_param impl id param_id value g = elim (get_elem? g.nodes id) [
    | none ↦ g
    | some n ↦ record g { nodes = set g.nodes id (impl.set_param n param_id value) }
  ]

  -- The body of the loop of `process`.
  pub process_node : AudioNode N B C P → ℕ → AudioGraph N B C → Outcome (AudioGraph N B C)
  unfolding inputs_slice
  process_node impl id g = elim (get_elem? g.outputs id) [
    | none ↦ panicked
    | some buffer ↦ elim (get_elem? g.connections id) [
      | none ↦ panicked
      | some input_map ↦ elim (get_elem? g.nodes id) [
        | none ↦ panicked
        | some n ↦
            let (n', buffer') =
              impl.process n (inputs_slice g.outputs g.silence id input_map) buffer g.context in
            returned (record g { nodes = set g.nodes id n'; outputs = set g.outputs id buffer' })
      ]
    ]
  ]

  -- `for id in 0..self.nodes.len()`, with `left` nodes to go from `id` on.
  pub process_from : AudioNode N B C P → ℕ → ℕ → AudioGraph N B C → Outcome (AudioGraph N B C)
  unfolding process_node
  process_from impl id zero g = returned g
  process_from impl id (suc left) g = do
    g ← process_node impl id g
    process_from impl (id + 1) left g

  -- The graph after the round, and the buffer that is returned.
  unfoldable pub process : AudioNode N B C P → AudioGraph N B C → Outcome (AudioGraph N B C × B)
  unfolding process_from
  process impl g = do
    g' ← process_from impl 0 (length g.nodes) g
    returned (g', last_or g'.outputs g'.silence)
