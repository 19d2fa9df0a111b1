-- ===== src/Resonance/Audio/Stream.antt =====
-- libs/resonance/src/audio.rs: the samples that reach the device, however the callbacks cut them.
use una_os.Prelude.{ℕ, zero, suc, ◌+◌, ◌*◌, ◌<◌, ◌≤◌, ◌≡◌, refl, ap, ◌∙◌, arith}
use una_os.Prelude.{List, [], ◌∷◌, ◌++◌, length, get_or, take, drop, replicate}
use una_os.Prelude.{
  ◌==◌, get_or-replicate_in, get_or-append_right, get_or-append_left, length-append,
  length-replicate, length-take, length-drop,
}
use una_os.Prelude.{false}
use mathlib.Core.Path.{subst}
use una_os.Prelude.Outcome.{returned}
use una_os.Resonance.Graph.{AudioNode, AudioGraph}
use una_os.Resonance.Audio.{Playback, chunks}
use una_os.Resonance.Audio.{write_frame, write_frames, write_output_f32}
use una_os.Resonance.Audio.Position.{Plays, IsAt, sample, write_frame-IsAt}

module _ {N S C P F : Type 0} (impl : AudioNode N (List S) C P) (silent : S) (to_f32 : S → F)
    {graph : AudioGraph N (List S) C} (plays : Plays impl graph) where
  -- What a callback has written: in frame `f`, every channel has sample `k + f`.
  abbrev pub IsStream : ℕ → ℕ → ℕ → List F → Type 0
  IsStream channels k n out =
      (f c : ℕ) (d : F)
      → f < n
      → c < channels
      → get_or out (f * channels + c) d ≡ to_f32 (sample impl silent to_f32 plays (k + f))

  frame-IsStream :
      (channels k n : ℕ) (out : List F)
      → IsStream channels (k + 1) n out
      → IsStream channels k
          (suc n)
          (replicate channels (to_f32 (sample impl silent to_f32 plays k)) ++ out)
  frame-IsStream channels k n out rest zero c d hf hc =
      let v = to_f32 (sample impl silent to_f32 plays k) in
      let inside : c < length (replicate channels v) = rw (length-replicate channels v) hc in
      let index : 0 * channels + c ≡ c = omega arith in
      let number : k + 0 ≡ k = omega arith in
      rw (index, number)
        (get_or-append_left (replicate channels v) out c d inside
          ∙ get_or-replicate_in channels c v d hc)
  frame-IsStream channels k n out rest (suc f) c d hf hc =
      let v = to_f32 (sample impl silent to_f32 plays k) in
      let index : suc f * channels + c ≡ length (replicate channels v) + (f * channels + c) =
        rw (length-replicate channels v) (grind arith) in
      let number : k + suc f ≡ k + 1 + f = omega arith in
      rw (index, number)
        (get_or-append_right (replicate channels v) out (f * channels + c) d
          ∙ rest f c d (omega arith) hc)

  joined :
      (frame : List F) (frames : List (List F)) (p q r : Playback N S C P) (xs ys : List F)
      → write_frame impl silent to_f32 frame p ≡ returned (xs, q)
      → write_frames impl silent to_f32 frames q ≡ returned (ys, r)
      → write_frames impl silent to_f32 (frame ∷ frames) p ≡ returned (xs ++ ys, r)
  unfolding write_frames
  joined frame frames p q r xs ys e f = rw (e, f)

  write_frames-IsStream :
      (m n fuel k : ℕ) (output : List F) (p : Playback N S C P)
      → length output ≡ n * suc m
      → n ≤ fuel
      → IsAt impl silent to_f32 plays k p
      → (out : List F) × (p' : Playback N S C P) × (write_frames impl silent to_f32
            (chunks fuel (suc m) output)
            p
          ≡ returned (out, p'))
        × (length out ≡ length output)
        × IsStream (suc m) k n out
        × IsAt impl silent to_f32 plays (k + n) p'
  unfolding write_frames chunks
  write_frames-IsStream m zero zero k [] p e h a =
      let a' : IsAt impl silent to_f32 plays (k + 0) p =
        let z : k + 0 ≡ k = omega arith in rw z a in
      ([], p, refl, refl, λ f c d u v. absurd (omega arith), a')
  write_frames-IsStream m zero (suc fuel) k [] p e h a =
      let a' : IsAt impl silent to_f32 plays (k + 0) p =
        let z : k + 0 ≡ k = omega arith in rw z a in
      ([], p, refl, refl, λ f c d u v. absurd (omega arith), a')
  write_frames-IsStream m zero fuel k (x ∷ xs) p e h a = absurd (omega (arith, e))
  write_frames-IsStream m (suc n) zero k output p e h a = absurd (omega arith)
  write_frames-IsStream m (suc n) (suc fuel) k [] p e h a = absurd (grind (arith, e))
  write_frames-IsStream m (suc n) (suc fuel) k (x ∷ xs) p e h a =
      let (q, wrote, b) = write_frame-IsAt impl silent to_f32 plays k (take (suc m) (x ∷ xs)) p a in
      let fits : suc m ≤ length (x ∷ xs) = grind (arith, e) in
      let size : length (take (suc m) (x ∷ xs)) ≡ suc m =
        length-take (suc m) (x ∷ xs) ∙ omega arith in
      let shorter : length (drop (suc m) (x ∷ xs)) ≡ n * suc m =
        length-drop (suc m) (x ∷ xs) ∙ grind (arith, e) in
      let (out, p', rest, same, stream, c) =
        write_frames-IsStream m n fuel (k + 1) (drop (suc m) (x ∷ xs)) q shorter (omega arith) b in
      let v = to_f32 (sample impl silent to_f32 plays k) in
      let width = ap (λ n. replicate n v) size in
      let rep = length-replicate (suc m) v in
      let left = same ∙ length-drop (suc m) (x ∷ xs) in
      let sizes : length (replicate (suc m) v) + length out ≡ length (x ∷ xs) =
        omega (arith, rep, left, fits) in
      let place : k + 1 + n ≡ k + suc n = omega arith in
      (
        replicate (suc m) v ++ out,
        p',
        joined (take (suc m) (x ∷ xs)) (chunks fuel (suc m) (drop (suc m) (x ∷ xs))) p q p' _ out
            (wrote ∙ ap (λ t. returned (t, q)) width) rest,
        length-append (replicate (suc m) v) out ∙ sizes,
        frame-IsStream (suc m) k n out stream,
        subst (λ (j : ℕ). IsAt impl silent to_f32 plays j p') place c,
      )

  -- Where the graph plays round after round, a callback with whole frames does not panic. It fills its
  -- buffer: in each frame, every channel has the next sample of the graph, whose sample number k is
  -- number k % 64 of block k / 64. The next callback goes on where it ends, so the samples on the device
  -- do not depend on how the callbacks cut them.
  pub write_output_f32-IsStream :
      (k frames channels : ℕ) (output : List F) (p : Playback N S C P)
      → 0 < channels
      → length output ≡ frames * channels
      → IsAt impl silent to_f32 plays k p
      → (out : List F) × (p' : Playback N S C P) × (write_output_f32 impl silent to_f32 output
            channels p
          ≡ returned (out, p'))
        × (length out ≡ length output)
        × IsStream channels k frames out
        × IsAt impl silent to_f32 plays (k + frames) p'
  unfolding write_output_f32
  write_output_f32-IsStream k frames zero output p h e a = absurd (omega (arith, h))
  write_output_f32-IsStream k frames (suc m) output p h e a =
      let (out, p', wrote, size, stream, b) =
        write_frames-IsStream m frames (length output) k output p e (grind (arith, e)) a in
      let some_channel : (suc m == 0) ≡ false = ground arith in
      (out, p', rw some_channel wrote, size, stream, b)
