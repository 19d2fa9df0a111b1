-- ===== src/Resonance/Audio.antt =====
-- libs/resonance/src/audio.rs: the callback that hands the blocks of the graph to the sound device. The
-- samples and their conversion are a parameter.
pub mod Position
pub mod Stream
pub mod Tests
use una_os.Prelude.{ℕ, zero, suc, ◌+◌, List, [], ◌∷◌, ◌++◌, none, some, leb, ◌==◌, if◌then◌else◌}
use una_os.Prelude.{length, get_elem?, take, drop, replicate}
use una_os.Prelude.Outcome.{Outcome, panicked, returned, ◌>>=◌}
use una_os.Resonance.Graph.{AudioNode, AudioGraph, process}

abbrev pub block_size : ℕ
block_size = 64

pub data AudioCommand (P : Type 0) : Type 0 where
  set_param : ℕ → ℕ → P → AudioCommand P
  stop : AudioCommand P
  set_master_frequency : P → AudioCommand P

-- What the closure of the callback owns, and the commands that wait in the ring buffer.
pub record Playback (N S C P : Type 0) : Type 0 where
  pub graph : AudioGraph N (List S) C
  pub current_block : List S
  pub block_offset : ℕ
  pub commands : List (AudioCommand P)

-- `output.chunks_mut(channels)`, at most `fuel` chunks.
pub chunks : {F : Type 0} → ℕ → ℕ → List F → List (List F)
chunks zero channels output = []
chunks (suc fuel) channels [] = []
chunks (suc fuel) channels (x ∷ xs) =
    take channels (x ∷ xs) ∷ chunks fuel channels (drop channels (x ∷ xs))

module _ {N S C P F : Type 0} (impl : AudioNode N (List S) C P) (silent : S) (to_f32 : S → F) where
  -- The state at the start: no block is left.
  unfoldable pub new : AudioGraph N (List S) C → Playback N S C P
  new graph = record {
    graph = graph;
    current_block = replicate block_size silent;
    block_offset = block_size;
    commands = [];
  }

  -- Every arm of the match is empty.
  pub process_commands :
      AudioGraph N (List S) C
      → List (AudioCommand P)
      → AudioGraph N (List S) C × List (AudioCommand P)
  process_commands graph [] = (graph, [])
  process_commands graph (set_master_frequency freq ∷ rest) = process_commands graph rest
  process_commands graph (set_param node_id param_id value ∷ rest) = process_commands graph rest
  process_commands graph (stop ∷ rest) = process_commands graph rest

  -- A new block, if the current one is exhausted.
  pub next_block : Playback N S C P → Outcome (Playback N S C P)
  unfolding process_commands
  next_block p =
      if leb block_size p.block_offset
      then (let (graph, rest) = process_commands p.graph p.commands in
          process impl graph >>= (λ r.
            returned
              (record { graph = r.0; current_block = r.1; block_offset = 0; commands = rest })))
      else returned p

  -- The body of the loop over the frames.
  pub write_frame : List F → Playback N S C P → Outcome (List F × Playback N S C P)
  unfolding next_block
  write_frame frame p = do
    p ← next_block p
    elim (get_elem? p.current_block p.block_offset) [
      | none ↦ panicked
      | some sample ↦
          returned (
            replicate (length frame) (to_f32 sample),
            record p { block_offset = p.block_offset + 1 },
          )
    ]

  pub write_frames : List (List F) → Playback N S C P → Outcome (List F × Playback N S C P)
  unfolding write_frame
  write_frames [] p = returned ([], p)
  write_frames (frame ∷ frames) p = do
    r ← write_frame frame p
    rest ← write_frames frames r.1
    returned (r.0 ++ rest.0, rest.1)

  -- `chunks_mut` panics where the chunks have no element.
  pub write_output_f32 : List F → ℕ → Playback N S C P → Outcome (List F × Playback N S C P)
  unfolding chunks write_frames
  write_output_f32 output channels p =
      if channels == 0 then panicked else write_frames (chunks (length output) channels output) p
