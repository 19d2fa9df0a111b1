-- ===== src/Resonance/Audio/Position.antt =====
-- libs/resonance/src/audio.rs: where the playback stands after some frames, and the next frame.
use una_os.Prelude.{ℕ, suc, ◌+◌, ◌-◌, ◌*◌, ◌/◌, ◌%◌, ◌<◌, ◌≤◌, ◌≡◌, refl, ap, sym, ◌∙◌, arith}
use una_os.Prelude.{List, [], ◌∷◌, some, length, get_elem?, get_or, replicate}
use una_os.Prelude.{leb, leb→le, Bool-cases, inl, inr, get_or-get_elem?}
use una_os.Prelude.{get_elem?_in}
use una_os.Prelude.Outcome.{returned, ◌>>=◌}
use una_os.Resonance.Graph.{AudioNode, AudioGraph, process}
use una_os.Resonance.Audio.{block_size, AudioCommand, Playback, new, process_commands}
use una_os.Resonance.Audio.{next_block, write_frame}

-- The rounds of a graph, each with its block.
pub record Plays {N S C P : Type 0} (impl : AudioNode N (List S) C P)
    (graph : AudioGraph N (List S) C) : Type 0 where
  pub graphs : ℕ → AudioGraph N (List S) C
  pub blocks : ℕ → List S
  pub starts : graphs 0 ≡ graph
  pub steps : (i : ℕ) → process impl (graphs i) ≡ returned (graphs (suc i), blocks i)
  pub whole : (i : ℕ) → length (blocks i) ≡ block_size

module _ {N S C P F : Type 0} (impl : AudioNode N (List S) C P) (silent : S) (to_f32 : S → F)
    {graph : AudioGraph N (List S) C} (plays : Plays impl graph) where
  open plays use {graphs, blocks, starts, steps, whole}

  -- Sample number `k` of the graph.
  abbrev pub sample : ℕ → S
  sample k = get_or (blocks (k / block_size)) (k % block_size) silent

  -- The state after `k` frames.
  pub record IsAt (k : ℕ) (p : Playback N S C P) : Type 0 where
    pub rounds : ℕ
    pub graph_at : p.graph ≡ graphs rounds
    pub offset : p.block_offset + block_size * rounds ≡ k + block_size
    pub in_block : p.block_offset ≤ block_size
    pub current : (i : ℕ) → rounds ≡ suc i → p.current_block ≡ blocks i

  pub new-IsAt : IsAt 0 (new impl silent to_f32 graph)
  unfolding new
  new-IsAt = record {
    rounds = 0;
    graph_at = sym starts;
    offset = refl;
    in_block = omega arith;
    current = λ i e. absurd (omega (arith, e));
  }

  process_commands_lem :
      (g : AudioGraph N (List S) C) (cs : List (AudioCommand P))
      → process_commands impl silent to_f32 g cs ≡ (g, [])
  unfolding process_commands
  process_commands_lem g [] = refl
  process_commands_lem g (AudioCommand.set_param a b c ∷ cs) = process_commands_lem g cs
  process_commands_lem g (AudioCommand.stop ∷ cs) = process_commands_lem g cs
  process_commands_lem g (AudioCommand.set_master_frequency f ∷ cs) = process_commands_lem g cs

  -- With a block in hand, the frame is the sample there.
  record IsReady (k : ℕ) (p : Playback N S C P) : Type 0 where
    pub at : IsAt k p
    pub left : p.block_offset < block_size

  next_block-IsReady :
      (k : ℕ) (p : Playback N S C P)
      → IsAt k p
      → (p' : Playback N S C P) × (next_block impl silent to_f32 p ≡ returned p') × IsReady k p'
  unfolding next_block
  next_block-IsReady k p a = elim (Bool-cases (leb block_size p.block_offset)) [
    | inl t ↦
        let full = leb→le block_size p.block_offset t in
        let round = ap (process impl) a.graph_at ∙ steps a.rounds in
        (
          record {
            graph = graphs (suc a.rounds);
            current_block = blocks a.rounds;
            block_offset = 0;
            commands = [];
          },
          rw (t, process_commands_lem p.graph p.commands, round) refl,
          record {
            at = record {
              rounds = suc a.rounds;
              graph_at = refl;
              offset = omega (arith, a.offset, a.in_block);
              in_block = omega arith;
              current = λ i e. ap blocks (omega (arith, e));
            };
            left = omega arith;
          },
        )
    | inr f ↦ (p, rw f refl, record { at = a; left = ground (arith, f) })
  ]

  picked :
      (frame : List F) (p q : Playback N S C P) (x : S)
      → next_block impl silent to_f32 p ≡ returned q
      → get_elem? q.current_block q.block_offset ≡ some x
      → write_frame impl silent to_f32 frame p
        ≡ returned
            (replicate (length frame) (to_f32 x), record q { block_offset = q.block_offset + 1 })
  unfolding write_frame
  picked frame p q x e read = rw (e, write_frame, ◌>>=◌, read)

  pub write_frame-IsAt :
      (k : ℕ) (frame : List F) (p : Playback N S C P)
      → IsAt k p
      → (p' : Playback N S C P) × (write_frame impl silent to_f32 frame p
          ≡ returned (replicate (length frame) (to_f32 (sample k)), p'))
        × IsAt (k + 1) p'
  unfolding write_frame
  write_frame-IsAt k frame p a =
      let (q, e, ready) = next_block-IsReady k p a in
      let b = ready.at in
      let i = b.rounds - 1 in
      let one : b.rounds ≡ suc i = omega (arith, b.offset, ready.left) in
      let block : q.current_block ≡ blocks i = b.current i one in
      let index : k % block_size ≡ q.block_offset = omega (arith, b.offset, ready.left) in
      let number : k / block_size ≡ i = omega (arith, b.offset, ready.left) in
      let inside : q.block_offset < length (blocks i) = rw (whole i) ready.left in
      let (x, at) = get_elem?_in (blocks i) q.block_offset inside in
      let read : get_elem? q.current_block q.block_offset ≡ some x =
        ap (λ l. get_elem? l q.block_offset) block ∙ at in
      let is_x : sample k ≡ x =
        rw (number, index) (get_or-get_elem? (blocks i) q.block_offset silent x at) in
      (
        record q { block_offset = q.block_offset + 1 },
        picked frame p q x e read ∙ rw is_x refl,
        record {
          rounds = b.rounds;
          graph_at = b.graph_at;
          offset = omega (arith, b.offset);
          in_block = omega (arith, ready.left);
          current = b.current;
        },
      )
