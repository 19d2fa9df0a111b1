-- ===== src/Resonance/Audio/Tests.antt =====
-- libs/resonance/src/audio.rs: a graph of one node that plays, and the theorem at it.
use una_os.Prelude.{ℕ, zero, suc, ◌≡◌, refl, arith, List, [], ◌∷◌, length, replicate}
use una_os.Prelude.{length-replicate}
use una_os.Prelude.Outcome.{returned}
use una_os.Resonance.Graph.{AudioNode, AudioGraph, process}
use una_os.Resonance.Audio.{Playback, new, write_output_f32, block_size}
use una_os.Resonance.Audio.Position.{Plays, IsAt, new-IsAt}
use una_os.Resonance.Audio.Stream.{IsStream, write_output_f32-IsStream}

-- In round `n`, a block of the sample `n`.
abbrev counter : AudioNode ℕ (List ℕ) ℕ ℕ
counter = record {
  process = λ n inputs buffer c. (suc n, replicate block_size n);
  set_param = λ n k v. v;
}

abbrev silence : List ℕ
silence = replicate block_size 0

abbrev counting : ℕ → List ℕ → AudioGraph ℕ (List ℕ) ℕ
counting n output = record {
  nodes = n ∷ [];
  connections = [] ∷ [];
  outputs = output ∷ [];
  silence = silence;
  context = 48000;
}

abbrev graphs : ℕ → AudioGraph ℕ (List ℕ) ℕ
graphs zero = counting 0 silence
graphs (suc n) = counting (suc n) (replicate block_size n)

counted : (n : ℕ) → process counter (graphs n) ≡ returned (graphs (suc n), replicate block_size n)
unfolding process
counted zero = refl
counted (suc n) = refl

plays : Plays counter (counting 0 silence)
plays = record {
  graphs = graphs;
  blocks = λ n. replicate block_size n;
  starts = refl;
  steps = counted;
  whole = λ n. length-replicate block_size n;
}

abbrev start : Playback ℕ ℕ ℕ ℕ
start = new counter 0 (λ s. s) (counting 0 silence)

-- A stereo callback of three frames.
abbrev stereo : List ℕ
stereo = replicate 6 9

write_output_f32-IsStream_example :
    (out : List ℕ) × (p : Playback ℕ ℕ ℕ ℕ) × (write_output_f32 counter 0 (λ s. s) stereo 2 start
      ≡ returned (out, p))
    × (length out ≡ length stereo)
    × IsStream counter 0 (λ s. s) plays 2 0 3 out
    × IsAt counter 0 (λ s. s) plays 3 p
write_output_f32-IsStream_example =
    write_output_f32-IsStream counter 0 (λ s. s) plays 0 3 2 stereo start (omega arith) refl
      (new-IsAt counter 0 (λ s. s) plays)
