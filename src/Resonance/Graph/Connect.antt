-- ===== src/Resonance/Graph/Connect.antt =====
-- libs/resonance/src/graph.rs, connect: the one wire that it lays.
use una_os.Prelude.{ℕ, zero, suc, ◌+◌, ◌-◌, ◌<◌, ◌≤◌, ◌≡◌, refl, ◌∙◌, arith, List, [], ◌∷◌}
use una_os.Prelude.{Option, none, some, true, false, ◌&&◌, ltb, leb, ◌==◌}
use una_os.Prelude.{if◌then◌else◌, Bool-cases, inl, inr, length, get_elem?, get_or, set, replicate}
use una_os.Prelude.{length-set, get_or-set_self, get_or-set_ne, get_or-append_default, get_elem?_in}
use una_os.Prelude.{length-append, length-replicate}
use una_os.Prelude.Outcome.{returned}
use una_os.Resonance.Graph.{AudioGraph, grow, connect}
use una_os.Resonance.Graph.Rounds.{IsAligned}

-- The source of a port, none where there is no wire.
abbrev pub source : {N B C : Type 0} → AudioGraph N B C → ℕ → ℕ → Option ℕ
source g node port = get_or (get_or g.connections node []) port none

get_or-grow :
    (inputs : List (Option ℕ)) (n p : ℕ) → get_or (grow inputs n) p none ≡ get_or inputs p none
unfolding grow
get_or-grow inputs n p = elim (Bool-cases (ltb (length inputs) n)) [
  | inl short ↦ rw short (get_or-append_default inputs (n - length inputs) p none)
  | inr long ↦ rw long
]

length-grow : (inputs : List (Option ℕ)) (n : ℕ) → n ≤ length (grow inputs n)
unfolding grow
length-grow inputs n = ground (
  arith,
  length-append inputs (replicate (n - length inputs) none),
  length-replicate {A = Option ℕ} (n - length inputs) none,
)

get_or_of_get_elem? :
    (xs : List (List (Option ℕ))) (i : ℕ) (x : List (Option ℕ))
    → get_elem? xs i ≡ some x
    → get_or xs i [] ≡ x
get_or_of_get_elem? [] i x e = absurd (cc e)
get_or_of_get_elem? (y ∷ xs) zero x e = cc e
get_or_of_get_elem? (y ∷ xs) (suc i) x e = get_or_of_get_elem? xs i x e

module _ {N B C : Type 0} (g : AudioGraph N B C) (aligned : IsAligned g) (src dst port : ℕ)
    (known_src : src < length g.nodes) (known_dst : dst < length g.nodes)
    (known_port : port < 8) where
  -- The graph after the wire is laid, on the row of the destination.
  abbrev wired : List (Option ℕ) → AudioGraph N B C
  wired inputs = record g {
    connections = set g.connections dst (set (grow inputs (port + 1)) port (some src));
  }

  connect_returns :
      (inputs : List (Option ℕ))
      → get_elem? g.connections dst ≡ some inputs
      → connect src dst port g ≡ returned (wired inputs)
  unfolding connect
  connect_returns inputs e =
      let a : leb 8 port ≡ false = ground arith in
      let b : leb (length g.nodes) src ≡ false = ground arith in
      let c : leb (length g.nodes) dst ≡ false = ground arith in rw (a, b, c, e)

  source-wired :
      (inputs : List (Option ℕ)) (d p : ℕ)
      → get_elem? g.connections dst ≡ some inputs
      → source (wired inputs) d p ≡ (if d == dst && p == port then some src else source g d p)
  source-wired inputs d p e = elim (Bool-cases (d == dst)) [
    | inl here ↦
        let f : d ≡ dst = ground arith in
        rw
          (
            here,
            f,
            get_or-set_self g.connections dst (set (grow inputs (port + 1)) port (some src)) []
                (omega (arith, aligned.connections)),
            get_or_of_get_elem? g.connections dst inputs e,
          )
          (port_of inputs p)
    | inr other ↦ rw (
      other,
      get_or-set_ne g.connections dst d (set (grow inputs (port + 1)) port (some src)) []
          (λ f. absurd (ground arith)),
    )
  ]
    where
      port_of :
          (inputs : List (Option ℕ)) (p : ℕ)
          → get_or (set (grow inputs (port + 1)) port (some src)) p none
            ≡ (if true && p == port then some src else get_or inputs p none)
      port_of inputs p = elim (Bool-cases (p == port)) [
        | inl here ↦
            let f : p ≡ port = ground arith in
            rw (here, f)
              (get_or-set_self (grow inputs (port + 1)) port (some src) none
                (omega (arith, length-grow inputs (port + 1))))
        | inr other ↦ rw other (
            get_or-set_ne (grow inputs (port + 1)) port p (some src) none
              (λ f. absurd (ground arith))
            ∙ get_or-grow inputs (port + 1) p)
      ]

  -- Between two nodes of the graph, at one of the eight ports, connect does not panic. The port then
  -- has the source, whatever it had before; every other port of every node has the source it had, the
  -- nodes and their buffers are as before, and each node still has its row.
  pub connect-source :
      (g' : AudioGraph N B C) × (connect src dst port g ≡ returned g')
      × IsAligned g'
      × (g'.nodes ≡ g.nodes)
      × (g'.outputs ≡ g.outputs)
      × ((d p : ℕ) → source g' d p ≡ (if d == dst && p == port then some src else source g d p))
  connect-source =
      let (inputs, e) = get_elem?_in g.connections dst (omega (arith, aligned.connections)) in
      (
        wired inputs,
        connect_returns inputs e,
        record {
          outputs = aligned.outputs;
          connections =
              length-set g.connections dst (set (grow inputs (port + 1)) port (some src))
              ∙ aligned.connections;
        },
        refl,
        refl,
        λ d p. source-wired inputs d p e,
      )
