-- ===== src/Unafs/Fs/Data/Read.antt =====
-- How many bytes a read returns, and that the loops have rounds enough.
use una_os.Prelude.{ℕ, zero, suc, ◌+◌, ◌-◌, ◌%◌, ◌≤◌, min, List, ◌∷◌, ◌++◌}
use una_os.Prelude.{◌≡◌, refl, ap, ◌∙◌, arith, inl, inr, Option-cases, length, slice, length-slice}
use una_os.Prelude.{length-append}
use una_os.Prelude.Exec.{Result, ok, err, resume, resume-eq_ok, map_err, pure, ◌>>=◌}
use una_os.Unafs.Storage.{BlockDevice, block_size}
use una_os.Unafs.Inode.{Inode, ExtentList}
use una_os.Unafs.Fs.{UnaFs, Codecs, storage, FileSystemError, read_inode}
use una_os.Unafs.Fs.Data.{find_block, read_loop, read_data}

-- A successful read of a device fills its buffer.
pub record FillsBuffers {D : Type 0} (dev : BlockDevice D) : Type 0 where
  pub fills :
      (d : D) (id : ℕ) (b : List ℕ)
      → (dev.read_block id block_size d).0 ≡ ok b
      → length b ≡ block_size

map_err-eq_ok :
    {E F A : Type 0} (g : E → F) (r : Result E A) {a : A} → map_err g r ≡ ok a → r ≡ ok a
map_err-eq_ok g (ok b) h = ap ok (cc h)
map_err-eq_ok g (err e) h = absurd (cc h)

module _ {D : Type 0} ⦃dev : BlockDevice D⦄ (full : FillsBuffers dev) (c : Codecs) where
  after_hole :
      (r : Result FileSystemError (List ℕ)) (s s' : UnaFs D) (bytes : List ℕ)
      → resume r (λ rest. pure (0 ∷ rest)) s ≡ (ok bytes, s')
      → (rest : List ℕ) × (r ≡ ok rest) × (bytes ≡ 0 ∷ rest)
  after_hole (ok rest) s s' bytes e = (rest, refl, cc e)
  after_hole (err x) s s' bytes e = absurd (cc e)

  after_block :
      (r : Result FileSystemError (List ℕ)) (front : List ℕ) (s s' : UnaFs D) (bytes : List ℕ)
      → resume r (λ rest. pure (front ++ rest)) s ≡ (ok bytes, s')
      → (rest : List ℕ) × (r ≡ ok rest) × (bytes ≡ front ++ rest)
  after_block (ok rest) front s s' bytes e = (rest, refl, cc e)
  after_block (err x) front s s' bytes e = absurd (cc e)

  length-read_loop :
      (fuel : ℕ) (chunks : ExtentList) (offset left : ℕ) (s s' : UnaFs D) (bytes : List ℕ)
      → left ≤ fuel
      → read_loop c fuel chunks offset left s ≡ (ok bytes, s')
      → length bytes ≡ left
  unfolding read_loop
  length-read_loop zero chunks offset zero s s' bytes h e = ground (arith, e)
  length-read_loop (suc fuel) chunks offset zero s s' bytes h e = ground (arith, e)
  length-read_loop zero chunks offset (suc left) s s' bytes h e = absurd (omega arith)
  length-read_loop (suc fuel) chunks offset (suc left) s s' bytes h e =
      elim (Option-cases (find_block chunks offset)) [
        | inl hole ↦
            let r = read_loop c fuel chunks (offset + 1) left s in
            let (rest, got, front) = after_hole r.0 r.1 s' bytes (rw (hole, read_loop) at e) in
            let n : length rest ≡ left =
              length-read_loop fuel chunks (offset + 1) left s r.1 rest (omega arith)
                (pair_path got) in
            ap length front ∙ omega arith
        | inr (id, found) ↦
            let at = offset % block_size in
            let n = min (block_size - at) (suc left) in
            let d = dev.read_block id block_size s.device in
            let (block, read, later) =
              resume-eq_ok (map_err storage d.0)
                (λ block. read_loop c fuel chunks (offset + n) (suc left - n) >>= λ rest.
                  pure (slice block at n ++ rest))
                (record s { device = d.1 }) (rw (found, read_loop) at e) in
            let r =
              read_loop c fuel chunks (offset + n) (suc left - n) (record s { device = d.1 }) in
            let (rest, got, front) = after_block r.0 (slice block at n) r.1 s' bytes later in
            let w : length block ≡ block_size =
              full.fills s.device id block (map_err-eq_ok storage d.0 read) in
            let m : length rest ≡ suc left - n =
              length-read_loop fuel chunks (offset + n) (suc left - n) (record s { device = d.1 })
                r.1 rest (omega arith) (pair_path got) in
            ap length front
            ∙ length-append (slice block at n) rest
            ∙ omega (arith, length-slice block at n (omega arith))
      ]
    where
      pair_path :
          {r : Result FileSystemError (List ℕ) × UnaFs D} {rest : List ℕ}
          → r.0 ≡ ok rest
          → r ≡ (ok rest, r.1)
      pair_path {r} h = λ i. (h i, r.1)

  -- A read that succeeds returns exactly the bytes that were asked for, as far as the file goes: the
  -- loop has rounds enough and neither skips nor repeats a byte.
  pub length-read_data :
      (inode_id offset len : ℕ) (s s1 s' : UnaFs D) (node : Inode) (bytes : List ℕ)
      → read_inode c inode_id s ≡ (ok node, s1)
      → read_data c inode_id offset len s ≡ (ok bytes, s')
      → length bytes ≡ min len (node.size - offset)
  unfolding read_data
  length-read_data inode_id offset len s s1 s' node bytes opened e =
      let to_read = min len (node.size - offset) in
      length-read_loop to_read node.chunks offset to_read s1 s' bytes (omega arith)
        (rw (opened, resume) at e)
